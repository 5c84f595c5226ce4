-- ===== src/Access/Names.antt =====
-- Which identifiers belong to a device (`nodeIdBelongsToDevice`), and that devices share none.
use hardware_monitor.Device.{sensor_type_eq}
use hardware_monitor.Access.{name_belongs_to_device}
use hardware_monitor.Prelude.{
  ◌<◌, ◌≡◌, ◌≢◌, ◌↔◌, ◌⊎◌, inl, inr, refl, sym, ap, ◌∙◌, true, Bool-cases, [], ◌∷◌, ◌++◌, Bytes,
  bytes, ◌==◌, list_eq, nat_eq, length, take, take-append, length-append, arith,
}
use mathlib.Core.List.{append_assoc, append-nil}

abbrev pub dot : Bytes
dot = bytes "."

-- `id` is the device's name, or continues it after a dot.
abbrev pub Extends : Bytes → Bytes → Type 0
Extends id name = (id ≡ name) ⊎ ((rest : Bytes) × (id ≡ name ++ (dot ++ rest)) × (rest ≢ []))

abbrev pub NoDot : Bytes → Type 0
NoDot [] = Unit {0}
NoDot (c ∷ s) = (c ≢ b'.') × NoDot s

abbrev Tail : Bytes → Type 0
Tail [] = Unit {0}
Tail (c ∷ s) = c ≡ b'.'

split_at : (p id : Bytes) → take (length p) id ≡ p → (rest : Bytes) × (id ≡ p ++ rest)
split_at [] id h = (id, refl)
split_at (c ∷ p) [] h = absurd (ground arith)
split_at (c ∷ p) (x ∷ id) h =
    let (rest, e) = split_at p id (ground arith) in (rest, ground (arith, e))

length_pos : (s : Bytes) → s ≢ [] → 0 < length s
length_pos [] n = absurd (n refl)
length_pos (c ∷ s) n = omega arith

belongs_sound : (id name : Bytes) → name_belongs_to_device id name ≡ true → Extends id name
unfolding name_belongs_to_device
belongs_sound id name h = elim (Bool-cases (id == name)) [
  | inl same ↦ inl (ground arith)
  | inr other ↦
      let (rest, e) = split_at (name ++ dot) id (ground arith) in
      inr (rest, e ∙ append_assoc name dot rest, longer rest e (ground arith))
]
  where
    longer :
        (rest : Bytes) → id ≡ (name ++ dot) ++ rest → length (name ++ dot) < length id → rest ≢ []
    longer rest e lt z = omega (arith, ap length e, ap length z, length-append (name ++ dot) rest)

belongs_complete : (id name : Bytes) → Extends id name → name_belongs_to_device id name ≡ true
unfolding name_belongs_to_device
belongs_complete id name (inl e) = ground arith
belongs_complete id name (inr (rest, e, n)) =
    let e' : id ≡ (name ++ dot) ++ rest = e ∙ sym (append_assoc name dot rest) in
    ground (
      arith,
      e',
      take-append (name ++ dot) rest,
      length-append (name ++ dot) rest,
      length_pos rest n,
    )

-- The test holds of exactly the device's name and what continues it after a dot.
pub name_belongs_to_device_iff :
    (id name : Bytes) → (name_belongs_to_device id name ≡ true) ↔ Extends id name
name_belongs_to_device_iff id name = (belongs_sound id name, belongs_complete id name)

Extends-Tail :
    (id name : Bytes) → Extends id name → (tail : Bytes) × (id ≡ name ++ tail) × Tail tail
Extends-Tail id name (inl e) = ([], e ∙ sym (append-nil name), tt)
Extends-Tail id name (inr (rest, e, n)) = (dot ++ rest, e, refl)

unique : (a b s t : Bytes) → NoDot a → NoDot b → Tail s → Tail t → a ++ s ≡ b ++ t → a ≡ b
unique [] [] s t p q u v e = refl
unique [] (y ∷ b) [] t p q u v e = absurd (ground arith)
unique [] (y ∷ b) (x ∷ s) t p q u v e = absurd (ground arith)
unique (x ∷ a) [] s [] p q u v e = absurd (ground arith)
unique (x ∷ a) [] s (y ∷ t) p q u v e = absurd (ground arith)
unique (x ∷ a) (y ∷ b) s t p q u v e =
    let r = unique a b s t p.1 q.1 u v (ground arith) in ground (arith, r)

-- Devices whose names hold no dot share no identifier.
pub name_belongs_to_device_unique :
    (id a b : Bytes)
    → NoDot a
    → NoDot b
    → name_belongs_to_device id a ≡ true
    → name_belongs_to_device id b ≡ true
    → a ≡ b
name_belongs_to_device_unique id a b p q h k =
    let (s, e, u) = Extends-Tail id a (belongs_sound id a h) in
    let (t, f, v) = Extends-Tail id b (belongs_sound id b k) in unique a b s t p q u v (sym e ∙ f)
