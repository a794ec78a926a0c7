-- ===== src/Identity/Scim.antt =====
-- common/identity/oidc_provider.py: a value quoted for a SCIM filter.
use Prim.Native.Nat.{compare, Ordering}
use Prim.Native.Char.{Char, code}
use Prim.Native.String.{String, [], ◌∷◌, ◌++◌}
use Prim.Native.String.append
use text.Mathlib.TextLemmas.{append_assoc}
use text.Mathlib.TextEquality.{codes_equal}
use numi_dba_agent.Common.{
  Bool, true, false, Option, none, some, ◌≡◌, refl, ap, sym, Bool-cases, inl, inr, arith,
  if◌then◌else◌,
}

-- the backslash and the double quote
abbrev pub backslash : Char
backslash = "\\"

abbrev pub quote : Char
quote = "\""

abbrev same_char : Char → Char → Bool
same_char a b = elim (compare (code a) (code b)) [ Ordering.eq ↦ true | _ ↦ false ]

-- `value.replace(c, "\\" + c)`
escape : Char → String → String
escape c [] = []
escape c (ch ∷ rest) =
    let escaped = escape c rest in if same_char ch c then backslash ∷ c ∷ escaped else ch ∷ escaped

unfoldable pub scim_string_literal : String → String
unfolding escape
scim_string_literal value = quote ∷ (escape quote (escape backslash value) ++ (quote ∷ []))

-- A reader of a quoted string after its opening quote: a backslash makes the next character part of the
-- value, and the first bare quote ends it. It returns the value and the text that is left.
abbrev pub push : Char → Option (String × String) → Option (String × String)
push ch none = none
push ch (some (value, rest)) = some (ch ∷ value, rest)

-- `escaped` says that a backslash came just before.
unfoldable pub read_body : Bool → String → Option (String × String)
read_body escaped [] = none
read_body true (ch ∷ text) = push ch (read_body false text)
read_body false (ch ∷ text) =
    let after_backslash = read_body true text in
    let plain = push ch (read_body false text) in
    if same_char ch backslash
    then after_backslash
    else if same_char ch quote
    then some ([], text)
    else plain

unfoldable pub read_literal : String → Option (String × String)
unfolding read_body
read_literal [] = none
read_literal (ch ∷ text) = if same_char ch quote then read_body false text else none

same_char→eq : (a b : Char) → same_char a b ≡ true → a ≡ b
same_char→eq a b h = codes_equal a b (ground arith)

read_body-escape :
    (value rest : String)
    → read_body false (escape quote (escape backslash value) ++ (quote ∷ rest)) ≡ some (value, rest)
unfolding escape read_body
read_body-escape [] rest = rw (append.nil (quote ∷ rest)) refl
read_body-escape (ch ∷ value) rest = elim (Bool-cases (same_char ch backslash)) [
  | inl b ↦ rw b (
      simp (append.cons, append.nil, read_body-escape value rest)
        (ap (λ (c : Char). some (c ∷ value, rest)) (sym (same_char→eq ch backslash b))))
  | inr nb ↦ elim (Bool-cases (same_char ch quote)) [
    | inl q ↦
        rw (nb, q)
          (simp (append.cons, read_body-escape value rest)
            (ap (λ (c : Char). some (c ∷ value, rest)) (sym (same_char→eq ch quote q))))
    | inr nq ↦ rw (nb, nq) (simp (append.cons, nb, nq, read_body-escape value rest))
  ]
]

-- Whatever the value, and whatever text follows: the literal that is written for it reads back as
-- exactly that value, and the reader stops exactly at the text that follows.
pub read_literal-scim_string_literal :
    (value rest : String) → read_literal (scim_string_literal value ++ rest) ≡ some (value, rest)
unfolding read_literal scim_string_literal
read_literal-scim_string_literal value rest =
    let body = escape quote (escape backslash value) in
    rw (append.cons quote (body ++ (quote ∷ [])) rest) (
      rw (append_assoc body (quote ∷ []) rest)
        (rw (append.cons quote [] rest) (rw (append.nil rest) (read_body-escape value rest))))
