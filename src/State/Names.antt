-- ===== src/State/Names.antt =====
-- internal/state/refs.go and event.go: to which attempt an event belongs.
use hand.Base.{
  ==_iff, All, Bool-cases, Text, [], ap, arith, codes, decimal, decimal_from, false, if◌then◌else◌,
  inl, inr, refl, starts_with, suc, sym, text_eq, text_eq→eq, true, zero, ℕ, ◌%◌, ◌*◌, ◌++◌, ◌+◌,
  ◌-◌, ◌/◌, ◌==◌, ◌∙◌, ◌∷◌, ◌≡◌, ◌≤◌,
}
use hand.State.Schema.{Event}
use hand.State.Refs.{attempt_ref}
use hand.State.Events.{is_of_attempt}

-- The number that digits stand for, behind digits that stand for `v`: strconv.ParseInt.
unfoldable pub number_from : ℕ → Text → ℕ
number_from v [] = v
number_from v (c ∷ s) = number_from (v * 10 + (c - 48)) s

number_from-decimal_from :
    (fuel n : ℕ) (acc : Text)
    → n ≤ fuel
    → number_from 0 (decimal_from fuel n acc) ≡ number_from n acc
unfolding decimal_from number_from
number_from-decimal_from zero n acc h = let none_left : n ≡ 0 = omega arith in rw none_left refl
number_from-decimal_from (suc fuel) n acc h = elim (Bool-cases (n == 0)) [
  | inl e ↦ let none_left : n ≡ 0 = (==_iff n 0).0 e in rw none_left refl
  | inr e ↦ rw e (
      number_from-decimal_from fuel (n / 10) ((n % 10 + 48) ∷ acc) (ground arith)
      ∙ ap (λ k. number_from k acc) (omega arith))
]

-- A decimal number is read back.
number_from-decimal : (n : ℕ) → number_from 0 (decimal n) ≡ n
unfolding decimal number_from
number_from-decimal n = elim (Bool-cases (n == 0)) [
  | inl e ↦ let none_left : n ≡ 0 = (==_iff n 0).0 e in rw none_left refl
  | inr e ↦ rw e (number_from-decimal_from n n [] (omega arith))
]

-- The digits hold no colon.
abbrev NoColon : Text → Type 0
NoColon s = All (λ c. (c == b':') ≡ false) s

decimal_from-NoColon : (fuel n : ℕ) (acc : Text) → NoColon acc → NoColon (decimal_from fuel n acc)
unfolding decimal_from
decimal_from-NoColon zero n acc h = h
decimal_from-NoColon (suc fuel) n acc h = elim (Bool-cases (n == 0)) [
  | inl e ↦ rw e h
  | inr e ↦ rw e (decimal_from-NoColon fuel (n / 10) ((n % 10 + 48) ∷ acc) (ground arith, h))
]

attempt_ref-NoColon : (id : ℕ) → NoColon (attempt_ref id)
unfolding attempt_ref decimal
attempt_ref-NoColon id = (
  refl,
  (elim (Bool-cases (id == 0)) [
    | inl e ↦ rw e (refl, tt)
    | inr e ↦ rw e (decimal_from-NoColon id id [] tt)
  ]),
)

-- What stands before the first colon.
before_colon : Text → Text
before_colon [] = []
before_colon (c ∷ s) = let rest = before_colon s in if c == b':' then [] else c ∷ rest

before_colon-NoColon : (s : Text) → NoColon s → before_colon s ≡ s
unfolding before_colon
before_colon-NoColon [] h = refl
before_colon-NoColon (c ∷ s) h = rw h.0 (ap (λ t. c ∷ t) (before_colon-NoColon s h.1))

before_colon-starts :
    (ref s : Text) → NoColon ref → starts_with (ref ++ codes ": ") s ≡ true → before_colon s ≡ ref
unfolding before_colon starts_with
before_colon-starts [] [] h e = ground arith
before_colon-starts [] (c ∷ s) h e = ground arith
before_colon-starts (r ∷ ref) [] h e = ground arith
before_colon-starts (r ∷ ref) (c ∷ s) h e =
    let same : c ≡ r = ground arith in
    rw same (rw h.0 (ap (λ t. r ∷ t) (before_colon-starts ref s h.1 (ground arith))))

named : (id : ℕ) (e : Event) → is_of_attempt id e ≡ true → before_colon e.detail ≡ attempt_ref id
unfolding is_of_attempt
named id e h = elim (Bool-cases (text_eq e.detail (attempt_ref id))) [
  | inl q ↦
      let same : e.detail ≡ attempt_ref id = text_eq→eq e.detail (attempt_ref id) q in
      rw same (before_colon-NoColon (attempt_ref id) (attempt_ref-NoColon id))
  | inr q ↦ before_colon-starts (attempt_ref id) e.detail (attempt_ref-NoColon id) (ground arith)
]

decimal_inj : (i j : ℕ) → decimal i ≡ decimal j → i ≡ j
decimal_inj i j h = sym (number_from-decimal i) ∙ ap (number_from 0) h ∙ number_from-decimal j

tail_inj : (c : ℕ) (s t : Text) → c ∷ s ≡ c ∷ t → s ≡ t
tail_inj c s t h = cc

-- An event is taken for an event of one attempt at most: a1 is not taken for a12.
pub is_of_attempt-one :
    (i j : ℕ) (e : Event) → is_of_attempt i e ≡ true → is_of_attempt j e ≡ true → i ≡ j
unfolding attempt_ref
is_of_attempt-one i j e h k =
    decimal_inj i j (tail_inj b'a' (decimal i) (decimal j) (sym (named i e h) ∙ named j e k))
