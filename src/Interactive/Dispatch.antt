-- ===== src/Interactive/Dispatch.antt =====
-- Core::interactive_exec of interactive.cpp: a typed line is taken to its member function.
use text.Mathlib.Text.{◌==◌ as str_eq}
use text.Mathlib.TextEquality.{eq_iff}
use distadm.Prelude.{
  ◌≡◌, ◌≢◌, refl, not, String, Bool, true, false, Option, none, some, List, [], ◌∷◌, if◌then◌else◌,
  arith, Bool-cases, inl, inr,
}
use distadm.Core.{Core}
use distadm.Interactive.{Shell, Outcome, says, translated}
use distadm.Interactive.Table.{Incm, incm_list, lookup}

-- `(this->*p->second)(os, cmd)` for each member function
abbrev pub Members : Type 0
Members = Incm → Core → List String → Outcome

-- `cmd[0]` and the words behind it, after the two first tests. A call through nullptr is `none`, and an
-- exception is caught.
unfoldable pub call : Shell → Members → Core → List String → Option (Option Incm) → Option Outcome
call sh members c cmd none = some (says c (translated sh "Not implemented"))
call sh members c cmd (some none) = none
call sh members c cmd (some (some f)) = some (record (members f c cmd) { thrown = none })

-- The answer of false ends the session.
unfoldable pub interactive_exec : Shell → Members → Core → List String → Option (Outcome × Bool)
unfolding call lookup
interactive_exec sh members c [] = some (says c [], true)
interactive_exec sh members c (word ∷ words) =
    let called = call sh members c (word ∷ words) (lookup word incm_list) in
    if str_eq word "exit"
    then some (says c [], false)
    else elim called [ none ↦ none | some o ↦ some (o, true) ]

abbrev pub is_exit : List String → Bool
is_exit [] = false
is_exit (word ∷ words) = str_eq word "exit"

no_function : (f : Incm) → ¬ (some (some f) ≡ some none)
no_function f h = cc

-- Every name of a list but "exit" has a function.
abbrev HasFunctions : List (String × Option Incm) → Type 0
HasFunctions [] = Unit
HasFunctions ((key, none) ∷ list) = (str_eq key "exit" ≡ true) × HasFunctions list
HasFunctions ((key, some f) ∷ list) = HasFunctions list

incm_list-HasFunctions : HasFunctions incm_list
incm_list-HasFunctions = (refl, tt)

same_word :
    (key word : String)
    → str_eq key word ≡ true
    → str_eq key "exit" ≡ true
    → str_eq word "exit" ≡ true
same_word key word h e = let same : key ≡ word = (eq_iff key word).0 h in rw same at e

lookup-HasFunctions :
    (word : String) (list : List (String × Option Incm))
    → HasFunctions list
    → lookup word list ≡ some none
    → str_eq word "exit" ≡ true
unfolding lookup
lookup-HasFunctions word [] h e = cc
lookup-HasFunctions word ((key, none) ∷ list) h e = elim (Bool-cases (str_eq key word)) [
  | inl here ↦ same_word key word here h.0
  | inr other ↦ lookup-HasFunctions word list h.1 (rw other at e)
]
lookup-HasFunctions word ((key, some f) ∷ list) h e = elim (Bool-cases (str_eq key word)) [
  | inl here ↦ let wrong : some (some f) ≡ some none = rw here at e in absurd (no_function f wrong)
  | inr other ↦ lookup-HasFunctions word list h (rw other at e)
]

-- Only "exit" has no function.
pub lookup-exit : (word : String) → lookup word incm_list ≡ some none → str_eq word "exit" ≡ true
lookup-exit word e = lookup-HasFunctions word incm_list incm_list-HasFunctions e

call-some :
    (sh : Shell) (members : Members) (c : Core) (cmd : List String) (found : Option (Option Incm))
    → found ≢ some none
    → (o : Outcome) × (call sh members c cmd found ≡ some o) × (o.thrown ≡ none)
unfolding call
call-some sh members c cmd none h = (_, refl, refl)
call-some sh members c cmd (some none) h = absurd (h refl)
call-some sh members c cmd (some (some f)) h = (_, refl, refl)

-- A typed line always has its outcome: no line calls through the nullptr of the table, whatever the
-- member functions throw is caught, and exactly a line whose first word is "exit" ends the session.
pub interactive_exec-answer :
    (sh : Shell) (members : Members) (c : Core) (cmd : List String)
    → (o : Outcome) × (interactive_exec sh members c cmd ≡ some (o, not (is_exit cmd)))
      × (o.thrown ≡ none)
unfolding interactive_exec
interactive_exec-answer sh members c [] = (_, refl, refl)
interactive_exec-answer sh members c (word ∷ words) = elim (Bool-cases (str_eq word "exit")) [
  | inl leaves ↦ rw leaves (_, refl, refl)
  | inr stays ↦
      let (o, called, calm) =
        call-some sh members c (word ∷ words) (lookup word incm_list)
          (λ e. absurd (ground (arith, lookup-exit word e))) in
      rw stays (rw called (o, refl, calm))
]
