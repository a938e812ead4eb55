-- ===== src/Proxy/Http/Send.antt =====
-- What reaches the other side through `http_send_data`.
use cs537_operating_system_u.Base.{
  ℕ, ◌≤◌, ◌<◌, ◌≡◌, refl, ◌∙◌, List, [], ◌∷◌, ◌++◌, some, arith, length, take, drop, append_assoc,
  take-append-drop, length-drop, All,
}
use cs537_operating_system_u.Base.Int.{ℤ, pos, negsuc}
use cs537_operating_system_u.Proxy.Http.{http_send_data}

-- The bytes that were sent and those that were not are the data, in order. All were sent if the
-- result is not negative.
pub http_send_data-prefix :
    (writes : List ℤ) (bytes : List ℕ)
    → let (result, sent) = http_send_data bytes writes in
      (unsent : List ℕ) × (sent.bytes ++ unsent ≡ bytes)
      × ((n : ℕ) → result ≡ some (pos n) → unsent ≡ [])
unfolding http_send_data
http_send_data-prefix writes [] = ([], refl, λ _ _. refl)
http_send_data-prefix [] (b ∷ bs) = (b ∷ bs, refl, λ n e. cc)
http_send_data-prefix (negsuc n ∷ writes) (b ∷ bs) = (b ∷ bs, refl, λ n e. cc)
http_send_data-prefix (pos n ∷ writes) (b ∷ bs) =
    let (unsent, e, all) = http_send_data-prefix writes (drop n (b ∷ bs)) in
    (
      unsent,
      append_assoc (take n (b ∷ bs)) (http_send_data (drop n (b ∷ bs)) writes).1.bytes unsent
          ∙ rw e (take-append-drop n (b ∷ bs)),
      all,
    )

abbrev pub IsPositive : ℤ → Type 0
IsPositive (pos n) = 0 < n
IsPositive (negsuc n) = ⊥

-- The loop ends: where each `write` takes a byte at least, as many of them as there are bytes
-- suffice, and the result is 0.
http_send_data_total :
    (writes : List ℤ) (bytes : List ℕ)
    → All IsPositive writes
    → length bytes ≤ length writes
    → (http_send_data bytes writes).0 ≡ some (pos 0)
unfolding http_send_data
http_send_data_total writes [] h enough = refl
http_send_data_total [] (b ∷ bs) h enough = absurd (omega arith)
http_send_data_total (negsuc n ∷ writes) (b ∷ bs) h enough = absurd h.0
http_send_data_total (pos n ∷ writes) (b ∷ bs) h enough =
    http_send_data_total writes (drop n (b ∷ bs)) h.1 (omega (arith, h.0, length-drop n (b ∷ bs)))
