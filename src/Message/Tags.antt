-- ===== src/Message/Tags.antt =====
-- `std::unordered_map<std::string, std::string>` as the entries in the order in which it is read, and
-- the copies that src/internal/transport/converter.cc makes of it.
use mathlib.Core.Bool.{false≢true}
use kubemq_cpp.Base.{
  ◌≡◌, refl, sym, ap, ◌∙◌, ◌⊎◌, inl, inr, append-nil, true, false, List, [], ◌∷◌, ◌++◌, Option,
  none, some, append_assoc, if◌then◌else◌, Bytes, str_eq, str_eq-eq, str_eq_refl, Bool-cases, arith,
}

abbrev pub Tags : Type 0
Tags = List (Bytes × Bytes)

unfoldable pub lookup : Bytes → Tags → Option Bytes
lookup k [] = none
lookup k ((j, v) ∷ t) = if str_eq k j then some v else lookup k t

-- `tags[key] = value`
unfoldable pub add_tag : Bytes → Bytes → Tags → Tags
add_tag k v [] = (k, v) ∷ []
add_tag k v ((j, w) ∷ t) = if str_eq k j then (j, v) ∷ t else (j, w) ∷ add_tag k v t

unfoldable copy_into : Tags → Tags → Tags
copy_into acc [] = acc
copy_into acc ((k, v) ∷ t) = copy_into (add_tag k v acc) t

-- `CopyTags` and `SetTags`
unfoldable pub copy_tags : Tags → Tags
unfolding copy_into
copy_tags t = copy_into [] t

-- A map has no key twice.
abbrev pub IsMap : Tags → Type 0
IsMap [] = Unit
IsMap ((k, v) ∷ t) = (lookup k t ≡ none) × IsMap t

-- Two keys that equal a third are equal.
str_eq-join : (i j k : Bytes) → str_eq j i ≡ true → str_eq j k ≡ true → str_eq k i ≡ true
str_eq-join i j k p q = rw (sym (str_eq-eq j i p), sym (str_eq-eq j k q)) (str_eq_refl j)

-- A tag that is set is found, and the other keys keep their values.
pub lookup-add_tag :
    (k j v : Bytes) (t : Tags)
    → lookup j (add_tag k v t) ≡ (if str_eq j k then some v else lookup j t)
unfolding lookup add_tag
lookup-add_tag k j v [] = refl
lookup-add_tag k j v ((i, w) ∷ t) = elim (Bool-cases (str_eq k i)) [
  | inl same ↦
      rw (same, str_eq-eq k i same)
        (elim (Bool-cases (str_eq j i)) [ inl h ↦ rw h refl | inr h ↦ rw h refl ])
  | inr other ↦
      rw (other, lookup-add_tag k j v t)
        (elim (Bool-cases (str_eq j i)) [
          | inl p ↦ elim (Bool-cases (str_eq j k)) [
            | inl q ↦ absurd (false≢true (sym other ∙ str_eq-join i j k p q))
            | inr q ↦ rw (p, q) refl
          ]
          | inr p ↦ rw p refl
        ])
]

lookup-tail :
    (k j w : Bytes) (t : Tags)
    → lookup k ((j, w) ∷ t) ≡ none
    → (str_eq k j ≡ false) × (lookup k t ≡ none)
unfolding lookup
lookup-tail k j w t h = ground arith

add_tag-append : (k v : Bytes) (t : Tags) → lookup k t ≡ none → add_tag k v t ≡ t ++ (k, v) ∷ []
unfolding add_tag
add_tag-append k v [] h = refl
add_tag-append k v ((j, w) ∷ t) h =
    let (other, h') = lookup-tail k j w t h in
    rw other (ap (λ u. (j, w) ∷ u) (add_tag-append k v t h'))

first_absent :
    (k v : Bytes) (t acc : Tags)
    → (lookup k acc ≡ none) ⊎ (lookup k ((k, v) ∷ t) ≡ none)
    → lookup k acc ≡ none
first_absent k v t acc (inl h) = h
first_absent k v t acc (inr h) = absurd (false≢true (sym (lookup-tail k k v t h).0 ∙ str_eq_refl k))

copy_into-append :
    (t acc : Tags)
    → IsMap t
    → ((j : Bytes) → (lookup j acc ≡ none) ⊎ (lookup j t ≡ none))
    → copy_into acc t ≡ acc ++ t
unfolding copy_into
copy_into-append [] acc m fresh = sym (append-nil acc)
copy_into-append ((k, v) ∷ t) acc (new, m) fresh =
    let absent = first_absent k v t acc (fresh k) in
    copy_into-append t (add_tag k v acc) m (λ j. step j (Bool-cases (str_eq j k)))
    ∙ ap (λ a. a ++ t) (add_tag-append k v acc absent)
    ∙ append_assoc acc ((k, v) ∷ []) t
  where
    step :
        (j : Bytes)
        → (str_eq j k ≡ true) ⊎ (str_eq j k ≡ false)
        → (lookup j (add_tag k v acc) ≡ none) ⊎ (lookup j t ≡ none)
    step j (inl p) = inr (rw (str_eq-eq j k p) new)
    step j (inr p) = elim (fresh j) [
      | inl h ↦ inl (lookup-add_tag k j v acc ∙ rw p h)
      | inr h ↦ inr (lookup-tail j k v t h).1
    ]

-- A copy of a map has the entries of the map, in the order in which they were read.
pub copy_tags-IsMap : (t : Tags) → IsMap t → copy_tags t ≡ t
unfolding copy_tags lookup
copy_tags-IsMap t m = copy_into-append t [] m (λ j. inl refl)
