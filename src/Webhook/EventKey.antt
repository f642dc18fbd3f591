-- ===== src/Webhook/EventKey.antt =====
-- The key of a click event, `<action>:<customer_id>:<batch_id>` (`_parse_event_key` of
-- src/webhook/handlers.py), with Python's `str.split(":")` on the characters of the text.
use Prim.Native.Char.{Char, code}
use Prim.Native.String.{◌++◌}
use text.Mathlib.TextLemmas.{nil-append, cons-append}
use text.Mathlib.TextEquality.{Char-path}
use shelf_life_copilot.Prelude.{
  String, ◌≡◌, refl, sym, ◌∙◌, ap, Bool, true, false, List, [], ◌∷◌, Result, ok, err,
  unknown_action, nat_eq, if◌then◌else◌, arith, Bool-cases, inl, inr, ◌↔◌,
}
use shelf_life_copilot.Prelude.Table.{All}

abbrev is_colon : Char → Bool
is_colon c = nat_eq (code c) b':'

abbrev put : Char → List String → List String
put c [] = String.◌∷◌ c String.[] ∷ []
put c (p ∷ parts) = String.◌∷◌ c p ∷ parts

-- `text.split(":")`
unfoldable pub split : String → List String
split String.[] = String.[] ∷ []
split (String.◌∷◌ c s) = let rest = split s in if is_colon c then String.[] ∷ rest else put c rest

abbrev three : List String → Result (String × String × String)
three (a ∷ c ∷ b ∷ []) = ok (a, c, b)
three _ = err unknown_action

-- `_parse_event_key`
unfoldable pub parse_event_key : String → Result (String × String × String)
unfolding split
parse_event_key key = three (split key)

-- the key that a card of the scheduler carries (f"{action}:{customer_id}:{batch_id}")
abbrev pub event_key : String → String → String → String
event_key action customer batch = action ++ (":" ++ (customer ++ (":" ++ batch)))

unfoldable pub has_colon : String → Bool
has_colon String.[] = false
has_colon (String.◌∷◌ c s) = let rest = has_colon s in if is_colon c then true else rest

abbrev join : List String → String
join [] = String.[]
join (p ∷ []) = p
join (p ∷ q ∷ parts) = p ++ (":" ++ join (q ∷ parts))

colon_char : (c : Char) → is_colon c ≡ true → (s : String) → ":" ++ s ≡ String.◌∷◌ c s
colon_char c h s =
    cons-append ":" String.[] s
    ∙ ap (λ t. String.◌∷◌ ":" t) (nil-append s)
    ∙ ap (λ d. String.◌∷◌ d s) (Char-path ":" c (ground arith))

split-free : (s : String) → has_colon s ≡ false → split s ≡ s ∷ []
unfolding split has_colon
split-free String.[] h = refl
split-free (String.◌∷◌ c s) h = elim (Bool-cases (is_colon c)) [
  | inl e ↦ absurd (cc (rw e at h))
  | inr e ↦ rw (e, split-free s (rw e at h)) refl
]

-- the first part ends at the first colon
split-append : (s rest : String) → has_colon s ≡ false → split (s ++ (":" ++ rest)) ≡ s ∷ split rest
unfolding split has_colon
split-append String.[] rest h =
    ap split (nil-append (":" ++ rest) ∙ colon_char ":" (ground arith) rest)
split-append (String.◌∷◌ c s) rest h = elim (Bool-cases (is_colon c)) [
  | inl e ↦ absurd (cc (rw e at h))
  | inr e ↦ ap split (cons-append c s (":" ++ rest)) ∙ rw (e, split-append s rest (rw e at h)) refl
]

split-cons : (s : String) → (p : String) × (parts : List String) × (split s ≡ p ∷ parts)
unfolding split
split-cons String.[] = (String.[], [], refl)
split-cons (String.◌∷◌ c s) = elim (Bool-cases (is_colon c)) [
  | inl e ↦ (String.[], split s, rw e refl)
  | inr e ↦ (let (p, parts, h) = split-cons s in (String.◌∷◌ c p, parts, rw (e, h) refl))
]

joined :
    (c : Char) (s p : String) (parts : List String)
    → is_colon c ≡ false
    → join (p ∷ parts) ≡ s
    → join (String.◌∷◌ c p ∷ parts) ≡ String.◌∷◌ c s
joined c s p [] e h = ap (λ t. String.◌∷◌ c t) h
joined c s p (q ∷ parts) e h =
    cons-append c p (":" ++ join (q ∷ parts)) ∙ ap (λ t. String.◌∷◌ c t) h

join-split : (s : String) → join (split s) ≡ s
unfolding split
join-split String.[] = refl
join-split (String.◌∷◌ c s) =
    let (p, parts, h) = split-cons s in
    let rest : join (p ∷ parts) ≡ s = ap join (sym h) ∙ join-split s in
    elim (Bool-cases (is_colon c)) [
      | inl e ↦
          rw (e, h)
            (nil-append (":" ++ join (p ∷ parts)) ∙ ap (λ t. ":" ++ t) rest ∙ colon_char c e s)
      | inr e ↦ rw (e, h) (joined c s p parts e rest)
    ]

split-free_parts : (s : String) → All (λ p. has_colon p ≡ false) (split s)
unfolding split has_colon
split-free_parts String.[] = (refl, tt)
split-free_parts (String.◌∷◌ c s) =
    let (p, parts, h) = split-cons s in
    let rest = rw h at (split-free_parts s) in
    elim (Bool-cases (is_colon c)) [
      | inl e ↦ rw (e, h) (refl, rest)
      | inr e ↦ rw (e, h) (rw e rest.0, rest.1)
    ]

three-ok :
    (parts : List String) {a c b : String} → three parts ≡ ok (a, c, b) → parts ≡ a ∷ c ∷ b ∷ []
three-ok [] h = cc
three-ok (x ∷ []) h = cc
three-ok (x ∷ y ∷ []) h = cc
three-ok (x ∷ y ∷ z ∷ []) h = cc
three-ok (x ∷ y ∷ z ∷ w ∷ parts) h = cc

-- An event key is read as an action, a customer and a batch exactly when it is the three of them
-- joined by colons and none of them contains a colon.
pub parse_event_key-ok_iff :
    (key action customer batch : String)
    → (parse_event_key key ≡ ok (action, customer, batch)) ↔ (
        (key ≡ event_key action customer batch)
        × (has_colon action ≡ false)
        × (has_colon customer ≡ false)
        × (has_colon batch ≡ false))
unfolding parse_event_key
parse_event_key-ok_iff key action customer batch = (
  λ h.
      (let e = three-ok (split key) h in
        let free = rw e at (split-free_parts key) in
        (sym (join-split key) ∙ ap join e, free.0, free.1.0, free.1.1.0)),
  λ (e, a, c, b).
      rw
        (
          e,
          split-append action (customer ++ (":" ++ batch)) a,
          split-append customer batch c,
          split-free batch b,
        )
        refl,
)
