-- ===== src/Kernel/Names.antt =====
-- drivers/windows/CPU: the names that BuildCoreName gives.
use hardware_monitor.Prelude.{
  sym, ◌↔◌, ◌∙◌, Bytes, [], ap, arith, bytes, length, length-append, refl, reverse, suc, zero, ℕ,
  ◌*◌, ◌++◌, ◌+◌, ◌-◌, ◌/◌, ◌<◌, ◌∷◌, ◌≡◌, ◌≤◌,
}
use hardware_monitor.Kernel.{append_text, build_core_name, copy_text, digits_of, name_size}
use mathlib.Core.List.{append_cancel_right, append_cancel_left, reverse-reverse, reverse-cons}

copy_text_whole : (room : ℕ) (text : Bytes) → length text ≤ room → copy_text room text ≡ text
unfolding copy_text
copy_text_whole room [] h = refl
copy_text_whole zero (c ∷ text) h = absurd (omega arith)
copy_text_whole (suc room) (c ∷ text) h = ap (◌∷◌ c) (copy_text_whole room text (omega arith))

length-reverse : (s : Bytes) → length (reverse s) ≡ length s
length-reverse [] = refl
length-reverse (c ∷ s) =
    rw reverse-cons (omega (arith, length-append (reverse s) (c ∷ []), length-reverse s))

length-digits_of : (room n : ℕ) → length (digits_of room n) ≤ room
unfolding digits_of
length-digits_of zero n = omega arith
length-digits_of (suc room) n = ground (arith, length-digits_of room (n / 10))

append_text_whole :
    (size : ℕ) (dst text : Bytes)
    → length dst + length text ≤ size - 1
    → append_text size dst text ≡ dst ++ text
unfolding append_text
append_text_whole size dst text h = rw (copy_text_whole (size - 1 - length dst) text (omega arith))

opened :
    (size idx : ℕ) (suffix : Bytes)
    → build_core_name size idx suffix
      ≡ append_text size
          (append_text size
            (append_text size (append_text size [] (bytes "Core ")) (reverse (digits_of 4 idx)))
            (bytes " "))
          suffix
unfolding build_core_name
opened size idx suffix = refl

-- With room for all of it the name is the four parts one after the other.
build_core_name_whole :
    (idx : ℕ) (suffix : Bytes)
    → length suffix ≤ 21
    → build_core_name name_size idx suffix
      ≡ ((bytes "Core " ++ reverse (digits_of 4 idx)) ++ bytes " ") ++ suffix
build_core_name_whole idx suffix short =
    let digits = reverse (digits_of 4 idx) in
    let few : length digits ≤ 4 =
      omega (arith, length-reverse (digits_of 4 idx), length-digits_of 4 idx) in
    let n = length-append (bytes "Core ") digits in
    let m = length-append (bytes "Core " ++ digits) (bytes " ") in
    opened name_size idx suffix
    ∙ rw (
      append_text_whole name_size [] (bytes "Core ") (omega arith),
      append_text_whole name_size (bytes "Core ") digits (omega (arith, few)),
      append_text_whole name_size (bytes "Core " ++ digits) (bytes " ") (omega (arith, few, n)),
      append_text_whole name_size ((bytes "Core " ++ digits) ++ bytes " ") suffix
          (omega (arith, few, n, m, short)),
    )

-- The number that decimal digits stand for, the lowest first.
value_of_digits : Bytes → ℕ
value_of_digits [] = 0
value_of_digits (c ∷ s) = c - 0x30 + 10 * value_of_digits s

value_of_digits-digits_of : (idx : ℕ) → idx < 10000 → value_of_digits (digits_of 4 idx) ≡ idx
unfolding digits_of value_of_digits
value_of_digits-digits_of idx small = ground arith

length-copy_text : (room : ℕ) (text : Bytes) → length (copy_text room text) ≤ room
unfolding copy_text
length-copy_text room [] = omega arith
length-copy_text zero (c ∷ text) = omega arith
length-copy_text (suc room) (c ∷ text) = omega (arith, length-copy_text room text)

length-append_text :
    (size : ℕ) (dst text : Bytes)
    → length dst ≤ size - 1
    → length (append_text size dst text) ≤ size - 1
unfolding append_text
length-append_text size dst text h = omega (
  arith,
  length-append dst (copy_text (size - 1 - length dst) text),
  length-copy_text (size - 1 - length dst) text,
)

-- Whatever the number and the suffix are, a name leaves room for its NUL in a field of `size` chars.
length-build_core_name :
    (size idx : ℕ) (suffix : Bytes) → length (build_core_name size idx suffix) ≤ size - 1
length-build_core_name size idx suffix =
    let prefix = append_text size [] (bytes "Core ") in
    let numbered = append_text size prefix (reverse (digits_of 4 idx)) in
    let h = length-append_text size [] (bytes "Core ") (omega arith) in
    let h' = length-append_text size prefix (reverse (digits_of 4 idx)) h in
    let h'' = length-append_text size numbered (bytes " ") h' in
    rw (opened size idx suffix)
      (length-append_text size (append_text size numbered (bytes " ")) suffix h'')

same_digits :
    (i j : ℕ) (suffix : Bytes)
    → length suffix ≤ 21
    → build_core_name name_size i suffix ≡ build_core_name name_size j suffix
    → digits_of 4 i ≡ digits_of 4 j
same_digits i j suffix short e =
    let whole =
      sym (build_core_name_whole i suffix short) ∙ e ∙ build_core_name_whole j suffix short in
    let spaced = append_cancel_right _ _ suffix whole in
    let numbered = append_cancel_right _ _ (bytes " ") spaced in
    let turned = append_cancel_left (bytes "Core ") _ _ numbered in
    sym (reverse-reverse (digits_of 4 i)) ∙ ap reverse turned ∙ reverse-reverse (digits_of 4 j)

-- Processors below 10000 have different names for the same metric, if its suffix has at most 21
-- chars; and such a name leaves room for its NUL in the 32 chars of its field.
pub build_core_name_unique :
    (i j : ℕ) (suffix : Bytes)
    → i < 10000
    → j < 10000
    → length suffix ≤ 21
    → ((build_core_name name_size i suffix ≡ build_core_name name_size j suffix) ↔ (i ≡ j))
      × (length (build_core_name name_size i suffix) < name_size)
build_core_name_unique i j suffix p q short = (
  (
    (λ e.
        sym (value_of_digits-digits_of i p)
        ∙ ap value_of_digits (same_digits i j suffix short e)
        ∙ value_of_digits-digits_of j q),
    (λ e. ap (λ n. build_core_name name_size n suffix) e),
  ),
  omega (arith, length-build_core_name name_size i suffix),
)
