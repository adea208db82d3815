-- ===== src/Text/Quoting.antt =====
-- What print_list writes is what splitq reads.
use distadm.Prelude.{
  ℕ, zero, suc, ◌+◌, ◌≤◌, ◌<◌, ◌≡◌, refl, ◌∙◌, Bool, true, false, not, some, List, [], ◌∷◌, ◌++◌,
  append_assoc, append-nil, length, length-append, ◌==◌, ◌&&◌, ◌||◌, ==→eq, All, Bool-cases, inl,
  inr, arith,
}
use distadm.Text.{
  isspace, escape, prepend, dequote_string, skip_spaces, is_empty, need_quote, escaped,
  quote_string, splitq_loop, splitq, print_more, print_list,
}

-- What may follow a text: nothing, or a space.
abbrev Ends : List ℕ → Type 0
Ends [] = Unit {0}
Ends (ch ∷ s) = isspace ch ≡ true

-- A character that no test names is taken as it is.
dequote-one :
    (fuel : ℕ) (inq : Bool) (ch : ℕ) (s : List ℕ)
    → ((ch == 39) && not inq) ≡ false
    → (ch == 34) ≡ false
    → (not inq && isspace ch) ≡ false
    → (ch == 92) ≡ false
    → dequote_string (suc fuel) inq 0 (ch ∷ s) ≡ prepend (ch ∷ []) (dequote_string fuel inq 0 s)
unfolding dequote_string
dequote-one fuel inq ch s a b c d =
    rw (a, dequote_string)
      (rw (b, dequote_string) (rw (c, dequote_string) (rw (d, dequote_string) refl)))

dequote-Ends : (fuel : ℕ) (t : List ℕ) → Ends t → dequote_string (suc fuel) false 0 t ≡ ([], t)
unfolding dequote_string
dequote-Ends fuel [] h = refl
dequote-Ends fuel (ch ∷ t) h =
    let a : ((ch == 39) && true) ≡ false = ground arith in
    let b : (ch == 34) ≡ false = ground arith in
    rw (a, dequote_string) (rw (b, dequote_string) (rw (h, dequote_string) refl))

dequote-plain :
    (fuel : ℕ) (s t : List ℕ)
    → length s < fuel
    → need_quote s ≡ false
    → Ends t
    → dequote_string fuel false 0 (s ++ t) ≡ (s, t)
unfolding need_quote
dequote-plain zero s t h plain e = absurd (omega arith)
dequote-plain (suc fuel) [] t h plain e = dequote-Ends fuel t e
dequote-plain (suc fuel) (ch ∷ s) t h plain e =
    dequote-one fuel false ch (s ++ t) (ground arith) (ground arith) (ground arith) (ground arith)
    ∙ rw (dequote-plain fuel s t (omega arith) (ground arith) e) refl

dequote-escaped_one :
    (fuel ch : ℕ) (s : List ℕ)
    → ((ch == 92) || (ch == 34)) ≡ true
    → dequote_string (suc fuel) true 0 (92 ∷ ch ∷ s)
      ≡ prepend (ch ∷ []) (dequote_string fuel true 0 s)
unfolding dequote_string escape
dequote-escaped_one fuel ch s h = elim (Bool-cases (ch == 92)) [
  | inl backslash ↦ rw (==→eq ch 92 backslash) refl
  | inr other ↦ rw (==→eq ch 34 (ground arith)) refl
]

dequote-escaped :
    (fuel : ℕ) (s t : List ℕ)
    → length s + 1 < fuel
    → Ends t
    → dequote_string fuel true 0 (escaped s ++ 34 ∷ t) ≡ (s, t)
unfolding dequote_string escaped
dequote-escaped zero s t h e = absurd (omega arith)
dequote-escaped (suc zero) s t h e = absurd (omega arith)
dequote-escaped (suc (suc fuel)) [] t h e = dequote-Ends fuel t e
dequote-escaped (suc (suc fuel)) (ch ∷ s) t h e =
    let ih = dequote-escaped (suc fuel) s t (omega arith) e in
    elim (Bool-cases (ch == 92 || ch == 34)) [
      | inl special ↦
          rw special (dequote-escaped_one (suc fuel) ch (escaped s ++ 34 ∷ t) special ∙ rw ih refl)
      | inr plain ↦ rw plain (
          dequote-one (suc fuel) true ch (escaped s ++ 34 ∷ t) (ground arith) (ground arith)
            (ground arith) (ground arith)
          ∙ rw ih refl)
    ]

length-escaped : (s : List ℕ) → length s ≤ length (escaped s)
unfolding escaped
length-escaped [] = omega arith
length-escaped (ch ∷ s) = ground (arith, length-escaped s)

-- A quoted text in front of a space or the end is read back.
dequote-quote_string :
    (fuel : ℕ) (s t : List ℕ)
    → length (quote_string s) < fuel
    → Ends t
    → dequote_string fuel false 0 (quote_string s ++ t) ≡ (s, t)
unfolding quote_string
dequote-quote_string zero s t h e = absurd (omega arith)
dequote-quote_string (suc fuel) s t h e = elim (Bool-cases (need_quote s)) [
  | inl quoted ↦
      let room : suc (length (escaped s ++ 34 ∷ [])) < suc fuel = rw quoted at h in
      rw quoted (
        unfold dequote_string in
        rw (append_assoc (escaped s) (34 ∷ []) t) (
          dequote-escaped fuel s t
            (omega (arith, room, length-escaped s, length-append (escaped s) (34 ∷ []))) e))
  | inr plain ↦
      let room : length s < suc fuel = rw plain at h in
      rw plain (dequote-plain (suc fuel) s t room plain e)
]

-- A text of `quote_string` starts with a character that is no space, unless it is empty.
abbrev Starts : List ℕ → Type 0
Starts [] = ⊥
Starts (ch ∷ s) = isspace ch ≡ false

quote_string-Starts : (s t : List ℕ) → is_empty s ≡ false → Starts (quote_string s ++ t)
unfolding quote_string need_quote
quote_string-Starts [] t h = absurd cc
quote_string-Starts (ch ∷ s) t h = elim (Bool-cases (need_quote (ch ∷ s))) [
  | inl quoted ↦ rw quoted refl
  | inr plain ↦ rw plain (ground arith)
]

skip-Starts : (s : List ℕ) → Starts s → skip_spaces s ≡ s
unfolding skip_spaces
skip-Starts [] h = refl
skip-Starts (ch ∷ s) h = rw h refl

Ends-print_more : (list : List (List ℕ)) → Ends (print_more list b' ')
unfolding print_more
Ends-print_more [] = tt
Ends-print_more (n ∷ list) = refl

abbrev NonEmpty : List (List ℕ) → Type 0
NonEmpty = All (λ n. is_empty n ≡ false)

splitq_loop-step :
    (fuel : ℕ) (w n t : List ℕ) (list : List (List ℕ))
    → Starts w
    → dequote_string (suc (length w)) false 0 w ≡ (n, t)
    → is_empty n ≡ false
    → splitq_loop fuel false 0 (skip_spaces t) ≡ some list
    → splitq_loop (suc fuel) false 0 w ≡ some (n ∷ list)
unfolding splitq_loop
splitq_loop-step fuel [] n t list h e full more = absurd h
splitq_loop-step fuel (ch ∷ s) n t list h e full more =
    rw (e, splitq_loop) (rw (more, splitq_loop) (rw e (rw full refl)))

splitq_loop-print :
    (list : List (List ℕ)) (fuel : ℕ) (n : List ℕ)
    → NonEmpty (n ∷ list)
    → suc (length list) < fuel
    → splitq_loop fuel false 0 (quote_string n ++ print_more list b' ') ≡ some (n ∷ list)
unfolding print_more skip_spaces splitq_loop
splitq_loop-print list zero n h l = absurd (omega arith)
splitq_loop-print [] (suc zero) n h l = absurd (omega arith)
splitq_loop-print [] (suc (suc fuel)) n h l =
    splitq_loop-step (suc fuel) (quote_string n ++ []) n [] [] (quote_string-Starts n [] h.0)
      (dequote-quote_string (suc (length (quote_string n ++ []))) n []
        (omega (arith, length-append (quote_string n) [])) tt)
      h.0 refl
splitq_loop-print (m ∷ list) (suc fuel) n h l =
    let t = print_more (m ∷ list) b' ' in
    let rest = quote_string m ++ print_more list b' ' in
    let more : splitq_loop fuel false 0 (skip_spaces t) ≡ some (m ∷ list) =
      rw (skip-Starts rest (quote_string-Starts m (print_more list b' ') h.1.0))
        (splitq_loop-print list fuel m h.1 (omega arith)) in
    splitq_loop-step fuel (quote_string n ++ t) n t (m ∷ list) (quote_string-Starts n t h.0)
      (dequote-quote_string (suc (length (quote_string n ++ t))) n t
        (omega (arith, length-append (quote_string n) t)) refl)
      h.0 more

length-print_more : (list : List (List ℕ)) → length list ≤ length (print_more list b' ')
unfolding print_more
length-print_more [] = omega arith
length-print_more (n ∷ list) =
    omega (arith, length-print_more list, length-append (quote_string n) (print_more list b' '))

Starts-length : (s : List ℕ) → Starts s → 0 < length s
Starts-length [] h = absurd h
Starts-length (ch ∷ s) h = omega arith

-- What `print_list` writes with spaces between, whatever bytes the elements have, `splitq` reads back
-- as the same list, with its own bound on rounds. No element is empty.
pub splitq-print_list :
    (list : List (List ℕ)) → NonEmpty list → splitq (print_list list b' ') false 0 ≡ some list
unfolding splitq print_list splitq_loop skip_spaces
splitq-print_list [] h = refl
splitq-print_list (n ∷ list) h =
    let t = print_more list b' ' in
    let starts = quote_string-Starts n t h.0 in
    let long : suc (length list) ≤ length (quote_string n ++ t) = omega (
      arith,
      length-append (quote_string n) t,
      length-print_more list,
      Starts-length (quote_string n)
          (rw (append-nil (quote_string n)) at (quote_string-Starts n [] h.0)),
    ) in
    rw (skip-Starts (quote_string n ++ t) starts)
      (splitq_loop-print list (suc (length (quote_string n ++ t))) n h (omega (arith, long)))
