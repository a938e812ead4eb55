-- ===== src/Wfs/Log/Bytes.antt =====
-- Bytes written over others, and the bytes of the free part.
use cs537_operating_system_u.Base.{
  ℕ, zero, suc, ◌+◌, ◌≤◌, ◌≡◌, refl, ap, List, [], ◌∷◌, ◌++◌, some, arith, length, drop,
}
use cs537_operating_system_u.Wfs.Log.{free_bytes, overwrite}

pub overwrite-append :
    (over bytes : List ℕ)
    → length over ≤ length bytes
    → overwrite bytes over ≡ some (over ++ drop (length over) bytes)
overwrite-append [] bytes h = refl
overwrite-append (o ∷ over) [] h = absurd (omega arith)
overwrite-append (o ∷ over) (b ∷ bytes) h = rw (overwrite-append over bytes (omega arith))

pub length-free_bytes : (free : ℕ → ℕ) (offset n : ℕ) → length (free_bytes free offset n) ≡ n
unfolding free_bytes
length-free_bytes free offset zero = refl
length-free_bytes free offset (suc n) = ap suc (length-free_bytes free (offset + 1) n)
