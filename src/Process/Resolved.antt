-- ===== src/Process/Resolved.antt =====
-- What a command that expandCommand returns no longer contains.
use Prim.Native.Char.{Char, code}
use text.Mathlib.TextEquality.{Char-path}
use text.Mathlib.TextLemmas.{nil-append, cons-append}
use slam_system_manager.Base.{
  ◌==◌, ◌≡◌, ◌≢◌, refl, sym, ap, subst, ◌∙◌, ◌⊎◌, inl, inr, true, ◌||◌, List, String, ◌+++◌, none,
  some, Bool-cases, Option-cases, arith, ==_iff,
}
use slam_system_manager.Outcome.{value, throws}
use slam_system_manager.Process.Commands.{
  is_letter, is_name_char, all_name_chars, valid_substitution_name, substituted, name_before_brace,
  name_in_braces, unresolved, expand_command,
}

-- The text `{name}rest`, and `name}rest`.
abbrev pub ending_in_brace : String → String → String
ending_in_brace name rest = name +++ String.◌∷◌ "}" rest

abbrev pub token_then : String → String → String
token_then name rest = String.◌∷◌ "{" (ending_in_brace name rest)

-- A text with a token {name} in it, whose name starts with a letter or `_` and goes on with letters,
-- digits and `_`.
pub record HasToken (s : String) : Type 0 where
  pub before : String
  pub name : String
  pub rest : String
  pub spelled : s ≡ before +++ token_then name rest
  pub named : valid_substitution_name name ≡ true

name_before_brace-append :
    (name rest : String)
    → all_name_chars name ≡ true
    → name_before_brace (ending_in_brace name rest) ≡ some name
unfolding name_before_brace all_name_chars is_name_char is_letter
name_before_brace-append String.[] rest h = rw (nil-append (String.◌∷◌ "}" rest)) refl
name_before_brace-append (String.◌∷◌ c s) rest h =
    rw (cons-append c s (String.◌∷◌ "}" rest)) (ground (arith, name_before_brace-append s rest))

name_in_braces-append :
    (name rest : String)
    → valid_substitution_name name ≡ true
    → name_in_braces (ending_in_brace name rest) ≡ some name
unfolding name_in_braces valid_substitution_name
name_in_braces-append String.[] rest h = cc
name_in_braces-append (String.◌∷◌ c s) rest h =
    rw (cons-append c s (String.◌∷◌ "}" rest)) (ground (arith, name_before_brace-append s rest))

unresolved-ne-none :
    (before name rest : String)
    → valid_substitution_name name ≡ true
    → unresolved (before +++ token_then name rest) ≢ none
unfolding unresolved
unresolved-ne-none String.[] name rest h =
    rw (nil-append (token_then name rest)) (rw (name_in_braces-append name rest h) (λ e. cc))
unresolved-ne-none (String.◌∷◌ c s) name rest h =
    rw (cons-append c s (token_then name rest)) (ground (arith, unresolved-ne-none s name rest h))

-- The character of a number is the only one.
brace_char : (c d : Char) → (code c == code d) ≡ true → c ≡ d
brace_char c d h = Char-path c d ((==_iff (code c) (code d)).0 h)

-- The end of a token that is found: its name, in front of a brace.
abbrev EndsName : String → String → Type 0
EndsName s name = (rest : String) × (all_name_chars name ≡ true) × (s ≡ ending_in_brace name rest)

name_before_brace-some : (s name : String) → name_before_brace s ≡ some name → EndsName s name
unfolding name_before_brace all_name_chars
name_before_brace-some String.[] name h = cc
name_before_brace-some (String.◌∷◌ c s) name h = elim (Bool-cases (code c == b'}')) [
  | inl e ↦
      let n : "" ≡ name = ground arith in
      subst (EndsName (String.◌∷◌ c s)) n (
        s,
        refl,
        ap (λ d. String.◌∷◌ d s) (brace_char c "}" e) ∙ sym (nil-append (String.◌∷◌ "}" s)),
      )
  | inr e ↦ elim (Bool-cases (is_name_char (code c))) [
    | inr k ↦ absurd (ground arith)
    | inl k ↦ elim (Option-cases (name_before_brace s)) [
      | inl o ↦ absurd (ground arith)
      | inr (n', o) ↦
          let (rest, good, found) = name_before_brace-some s n' o in
          let n : String.◌∷◌ c n' ≡ name = ground arith in
          subst (EndsName (String.◌∷◌ c s)) n (
            rest,
            ground arith,
            ap (λ t. String.◌∷◌ c t) found ∙ sym (cons-append c n' (String.◌∷◌ "}" rest)),
          )
    ]
  ]
]

abbrev IsToken : String → String → Type 0
IsToken s name =
    (rest : String) × (valid_substitution_name name ≡ true) × (s ≡ ending_in_brace name rest)

name_in_braces-some : (s name : String) → name_in_braces s ≡ some name → IsToken s name
unfolding name_in_braces valid_substitution_name
name_in_braces-some String.[] name h = cc
name_in_braces-some (String.◌∷◌ c s) name h =
    elim (Bool-cases (is_letter (code c) || code c == b'_')) [
      | inr k ↦ absurd (ground arith)
      | inl k ↦ elim (Option-cases (name_before_brace s)) [
        | inl o ↦ absurd (ground arith)
        | inr (n', o) ↦
            let (rest, good, found) = name_before_brace-some s n' o in
            let n : String.◌∷◌ c n' ≡ name = ground arith in
            subst (IsToken (String.◌∷◌ c s)) n (
              rest,
              ground arith,
              ap (λ t. String.◌∷◌ c t) found ∙ sym (cons-append c n' (String.◌∷◌ "}" rest)),
            )
      ]
    ]

behind :
    (c : Char) (s name : String)
    → ((t : HasToken s) × (t.name ≡ name))
    → (t : HasToken (String.◌∷◌ c s)) × (t.name ≡ name)
behind c s name (t, e) = (
  record {
    before = String.◌∷◌ c t.before;
    name = t.name;
    rest = t.rest;
    spelled =
        ap (λ u. String.◌∷◌ c u) t.spelled
        ∙ sym (cons-append c t.before (token_then t.name t.rest));
    named = t.named;
  },
  e,
)

unresolved-HasToken :
    (s name : String) → unresolved s ≡ some name → (t : HasToken s) × (t.name ≡ name)
unfolding unresolved
unresolved-HasToken String.[] name h = cc
unresolved-HasToken (String.◌∷◌ c s) name h = elim (Bool-cases (code c == b'{')) [
  | inr e ↦ behind c s name (unresolved-HasToken s name (ground arith))
  | inl e ↦ elim (Option-cases (name_in_braces s)) [
    | inl o ↦ behind c s name (unresolved-HasToken s name (ground arith))
    | inr (n', o) ↦
        let (rest, good, found) = name_in_braces-some s n' o in
        (
          record {
            before = "";
            name = n';
            rest = rest;
            spelled =
                ap (λ d. String.◌∷◌ d s) (brace_char c "{" e)
                ∙ ap (λ t. String.◌∷◌ "{" t) found
                ∙ sym (nil-append (token_then n' rest));
            named = good;
          },
          ground arith,
        )
  ]
]

-- expandCommand either returns the substituted command, and then no token is left in it, or throws
-- with a token that is.
pub expand_command_cases :
    (command : String) (substitutions : List (String × String))
    → ((expand_command command substitutions ≡ value (substituted command substitutions))
        × (¬ HasToken (substituted command substitutions)))
      ⊎ ((t : HasToken (substituted command substitutions)) × (expand_command command substitutions
            ≡ throws ("Missing command substitution for token: {" +++ t.name +++ "}")))
unfolding expand_command
expand_command_cases command substitutions =
    elim (Option-cases (unresolved (substituted command substitutions))) [
      | inl e ↦ inl (
        rw (e, expand_command),
        λ t. unresolved-ne-none t.before t.name t.rest t.named (sym (ap unresolved t.spelled) ∙ e),
      )
      | inr (name, e) ↦
          let (t, n) = unresolved-HasToken (substituted command substitutions) name e in
          inr (t, rw (e, expand_command) (rw n refl))
    ]
