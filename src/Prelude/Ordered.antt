-- ===== src/Prelude/Ordered.antt =====
-- std::map with std::string keys: an association list in key order.

use mathlib.Core.Path.{◌≡◌, refl}
use mathlib.Core.Bool.{Bool, true, false}
use mathlib.Core.List.{[], ◌∷◌}
use mathlib.Core.Option.{some}
use native.Mathlib.Omega.{arith}
use hardware_monitor.Prelude.Tests.{◌==◌, ltb, list_eq, nat_eq, if◌then◌else◌}
use hardware_monitor.Prelude.Maps.{Map, lookup}
use hardware_monitor.Prelude.Text.{Bytes}

-- `std::string::operator<`: the order of the bytes.
unfoldable pub bytes_ltb : Bytes → Bytes → Bool
bytes_ltb s [] = false
bytes_ltb [] (d ∷ t) = true
bytes_ltb (c ∷ s) (d ∷ t) = if c == d then bytes_ltb s t else ltb c d

pub bytes_ltb_irrefl : (s : Bytes) → bytes_ltb s s ≡ false
unfolding bytes_ltb
bytes_ltb_irrefl [] = refl
bytes_ltb_irrefl (c ∷ s) = ground (arith, bytes_ltb_irrefl s)

pub bytes_ltb_trans :
    (s t u : Bytes) → bytes_ltb s t ≡ true → bytes_ltb t u ≡ true → bytes_ltb s u ≡ true
unfolding bytes_ltb
bytes_ltb_trans s [] u h k = ground arith
bytes_ltb_trans s (d ∷ t) [] h k = ground arith
bytes_ltb_trans [] (d ∷ t) (e ∷ u) h k = refl
bytes_ltb_trans (c ∷ s) (d ∷ t) (e ∷ u) h k = ground (arith, bytes_ltb_trans s t u)

pub bytes_ltb_total :
    (s t : Bytes) → (s == t) ≡ false → bytes_ltb s t ≡ false → bytes_ltb t s ≡ true
unfolding bytes_ltb
bytes_ltb_total [] [] h k = ground arith
bytes_ltb_total [] (d ∷ t) h k = ground arith
bytes_ltb_total (c ∷ s) [] h k = refl
bytes_ltb_total (c ∷ s) (d ∷ t) h k = ground (arith, bytes_ltb_total s t)

module _ {ℓ} {V : Type ℓ} where
  -- `m[k] = v`.
  unfoldable pub insert_ordered : Bytes → V → Map Bytes V → Map Bytes V
  insert_ordered k v [] = (k, v) ∷ []
  insert_ordered k v ((j, w) ∷ m) =
      if j == k
      then (j, v) ∷ m
      else if bytes_ltb k j
      then (k, v) ∷ (j, w) ∷ m
      else (j, w) ∷ insert_ordered k v m

  pub lookup-insert_ordered :
      (k j : Bytes) (v : V) (m : Map Bytes V)
      → lookup j (insert_ordered k v m) ≡ (if k == j then some v else lookup j m)
  unfolding lookup insert_ordered
  lookup-insert_ordered k j v [] = refl
  lookup-insert_ordered k j v ((i, w) ∷ m) = ground (arith, lookup-insert_ordered k j v m)

  -- Every key lies behind `k`, and each behind the one before it.
  abbrev pub IsOrderedFrom : Bytes → Map Bytes V → Type 0
  IsOrderedFrom k [] = Unit {0}
  IsOrderedFrom k ((j, w) ∷ m) = (bytes_ltb k j ≡ true) × IsOrderedFrom j m

  abbrev pub IsOrdered : Map Bytes V → Type 0
  IsOrdered [] = Unit {0}
  IsOrdered ((j, w) ∷ m) = IsOrderedFrom j m

  insert_ordered_from :
      (b k : Bytes) (v : V) (m : Map Bytes V)
      → bytes_ltb b k ≡ true
      → IsOrderedFrom b m
      → IsOrderedFrom b (insert_ordered k v m)
  unfolding insert_ordered
  insert_ordered_from b k v [] h o = ground arith
  insert_ordered_from b k v ((j, w) ∷ m) h o =
      ground (arith, insert_ordered_from j k v m, bytes_ltb_total j k, bytes_ltb_total k j)

  pub insert_ordered-IsOrdered :
      (k : Bytes) (v : V) (m : Map Bytes V) → IsOrdered m → IsOrdered (insert_ordered k v m)
  unfolding insert_ordered
  insert_ordered-IsOrdered k v [] o = tt
  insert_ordered-IsOrdered k v ((j, w) ∷ m) o =
      ground (arith, insert_ordered_from j k v m, bytes_ltb_total k j)
