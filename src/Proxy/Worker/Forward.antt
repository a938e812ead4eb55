-- ===== src/Proxy/Worker/Forward.antt =====
-- What the client gets of the file server's response.
use cs537_operating_system_u.Base.{
  ℕ, ◌≡◌, refl, ap, sym, ◌∙◌, List, [], ◌∷◌, ◌++◌, Option, none, some, arith, ◌>>=◌, append_assoc,
  append-nil, Option-cases, inl, inr,
}
use cs537_operating_system_u.Base.Int.{ℤ, pos, negsuc}
use cs537_operating_system_u.Proxy.Http.{http_send_data, Sent}
use cs537_operating_system_u.Proxy.Http.Send.{http_send_data-prefix}
use cs537_operating_system_u.Proxy.Worker.{forward_response}

-- The text of all chunks.
abbrev pub joined : List (List ℕ) → List ℕ
joined [] = []
joined (chunk ∷ chunks) = chunk ++ joined chunks

module _ (b : ℕ) (bs : List ℕ) (received : List (List ℕ)) (writes : List ℤ) where
  abbrev chunk : Option ℤ × Sent
  chunk = http_send_data (b ∷ bs) writes

  forward_response-waits : chunk.0 ≡ none → forward_response ((b ∷ bs) ∷ received) writes ≡ none
  unfolding forward_response
  forward_response-waits e = rw (e, forward_response)

  forward_response-fails :
      (n : ℕ)
      → chunk.0 ≡ some (negsuc n)
      → forward_response ((b ∷ bs) ∷ received) writes ≡ some chunk.1.bytes
  unfolding forward_response
  forward_response-fails n e = rw (e, forward_response)

  forward_response-goes_on :
      (n : ℕ)
      → chunk.0 ≡ some (pos n)
      → forward_response ((b ∷ bs) ∷ received) writes
        ≡ (forward_response received chunk.1.writes >>= λ rest. some (chunk.1.bytes ++ rest))
  unfolding forward_response
  forward_response-goes_on n e = rw (e, forward_response)

  abbrev append_rest : Option (List ℕ) → Option (List ℕ)
  append_rest more = more >>= λ rest. some (chunk.1.bytes ++ rest)

  prefix_chunk :
      {bytes : List ℕ} (result : Option ℤ)
      → chunk.0 ≡ result
      → ((rest : List ℕ)
          → forward_response received chunk.1.writes ≡ some rest
          → (unsent : List ℕ) × (rest ++ unsent ≡ joined received))
      → forward_response ((b ∷ bs) ∷ received) writes ≡ some bytes
      → (unsent : List ℕ) × (bytes ++ unsent ≡ (b ∷ bs) ++ joined received)
  prefix_chunk none e ih h = absurd (cc (forward_response-waits e))
  prefix_chunk {bytes} (some (negsuc n)) e ih h =
      let (unsent, split, all) = http_send_data-prefix writes (b ∷ bs) in
      let same : chunk.1.bytes ≡ bytes = cc (forward_response-fails n e) in
      (unsent ++ joined received, rw (← same, ← append_assoc, split))
  prefix_chunk {bytes} (some (pos n)) e ih h =
      elim (Option-cases (forward_response received chunk.1.writes)) [
        | inl w ↦ absurd (cc (forward_response-goes_on n e, ap append_rest w))
        | inr (rest, r) ↦
            let (unsent, split, all) = http_send_data-prefix writes (b ∷ bs) in
            let (later, split') = ih rest r in
            let whole : chunk.1.bytes ≡ b ∷ bs =
              sym (append-nil chunk.1.bytes) ∙ rw (all n e) at split in
            let same : chunk.1.bytes ++ rest ≡ bytes =
              cc (forward_response-goes_on n e, ap append_rest r) in
            (later, rw (← same, whole, append_assoc (b ∷ bs) rest later, split'))
      ]

-- Whatever the calls of `write` return: where the loop ends, what the client gets is a prefix of the bytes
-- that were received, in order.
pub forward_response-prefix :
    (received : List (List ℕ)) (writes : List ℤ) {bytes : List ℕ}
    → forward_response received writes ≡ some bytes
    → (unsent : List ℕ) × (bytes ++ unsent ≡ joined received)
forward_response-prefix [] writes h = absurd (unfold forward_response in ground arith)
forward_response-prefix ([] ∷ received) writes h =
    (joined received, unfold forward_response in ground arith)
forward_response-prefix ((b ∷ bs) ∷ received) writes h =
    prefix_chunk b bs received writes (http_send_data (b ∷ bs) writes).0 refl
      (λ rest r. forward_response-prefix received (http_send_data (b ∷ bs) writes).1.writes r) h
