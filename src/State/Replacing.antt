-- ===== src/State/Replacing.antt =====
-- internal/state/move.go: what replacePathFold replaces.
use hand.Base.{
  Bool, Option, Text, [], ap, append_assoc, arith, drop, false, index, last_of, length,
  length-drop_le, none, refl, some, starts_with, subst, suc, sym, take, take-append-drop, true,
  zero, ℕ, ◌&&◌, ◌++◌, ◌<◌, ◌==◌, ◌∙◌, ◌∷◌, ◌≡◌, ◌≤◌, ◌⊎◌,
}
use hand.State.Homes.{
  count_at, count_from, count_path, fold_char, folded, is_free, move_glue, move_lead, move_name,
  path_end, place, replace_at, replace_from, replace_path_fold, tally,
}
use mathlib.Core.Option

-- `out` is `s` with n paths replaced by `to`. Each is spelled like `from`, up to the folding, and has
-- free sides; `prev` is the character before `s`.
pub data Rewritten (fold : Bool) (from to : Text) : Option ℕ → Text → Text → ℕ → Type 0 where
  kept : {prev : Option ℕ} {s : Text} → Rewritten fold from to prev s s 0
  replaced :
      {prev : Option ℕ} {s out : Text} {n : ℕ} (before word after rest : Text)
      → s ≡ before ++ (word ++ after)
      → folded fold word ≡ folded fold from
      → is_free (last_of prev before) ≡ true
      → path_end after ≡ true
      → Rewritten fold from to (last_of (last_of prev before) word) after rest n
      → out ≡ before ++ (to ++ rest)
      → Rewritten fold from to prev s out (suc n)

last_of-append : (prev : Option ℕ) (s t : Text) → last_of prev (s ++ t) ≡ last_of (last_of prev s) t
last_of-append prev [] t = refl
last_of-append prev (c ∷ s) t = last_of-append (some c) s t

-- What is passed over before the first path is kept.
passed :
    {fold : Bool} {from to : Text} (prev : Option ℕ) (skip s out : Text) (n : ℕ)
    → Rewritten fold from to (last_of prev skip) s out n
    → Rewritten fold from to prev (skip ++ s) (skip ++ out) n
passed prev skip s out n kept = kept
passed prev skip s out n (replaced before word after rest e same free end r o) =
    replaced (skip ++ before) word after rest
      (rw e (sym (append_assoc skip before (word ++ after)))) same
      (rw (last_of-append prev skip before) free) end (rw (last_of-append prev skip before) r)
      (rw o (sym (append_assoc skip before _)))

starts_with-take : (p s : Text) → starts_with p s ≡ true → take (length p) s ≡ p
unfolding starts_with
starts_with-take [] s h = refl
starts_with-take (a ∷ p) [] h = ground arith
starts_with-take (a ∷ p) (b ∷ s) h = ground (arith, starts_with-take p s)

-- strings.Index finds an occurrence.
index-take :
    (needle s : Text) (j : ℕ) → index needle s ≡ some j → take (length needle) (drop j s) ≡ needle
unfolding index
index-take [] [] j h = refl
index-take (a ∷ p) [] j h = ground arith
index-take needle (c ∷ s) zero h = ground (arith, starts_with-take needle (c ∷ s))
index-take needle (c ∷ s) (suc j) h = ground (arith, index-take needle s j)

take-folded : (fold : Bool) (n : ℕ) (s : Text) → take n (folded fold s) ≡ folded fold (take n s)
unfolding folded
take-folded fold zero s = refl
take-folded fold (suc n) [] = refl
take-folded fold (suc n) (c ∷ s) = ap (λ r. fold_char fold c ∷ r) (take-folded fold n s)

drop-folded : (fold : Bool) (n : ℕ) (s : Text) → drop n (folded fold s) ≡ folded fold (drop n s)
unfolding folded
drop-folded fold zero s = refl
drop-folded fold (suc n) [] = refl
drop-folded fold (suc n) (c ∷ s) = drop-folded fold n s

length-folded : (fold : Bool) (s : Text) → length (folded fold s) ≡ length s
unfolding folded
length-folded fold [] = refl
length-folded fold (c ∷ s) = ap suc (length-folded fold s)

last_of-folded :
    (fold : Bool) (prev : Option ℕ) (s : Text)
    → last_of (Option.map (fold_char fold) prev) (folded fold s)
      ≡ Option.map (fold_char fold) (last_of prev s)
unfolding folded
last_of-folded fold prev [] = refl
last_of-folded fold prev (c ∷ s) = last_of-folded fold (some c) s

move_name-fold_char : (fold : Bool) (c : ℕ) → move_name (fold_char fold c) ≡ move_name c
unfolding move_name fold_char
move_name-fold_char fold c = ground arith

fold_char-other :
    (fold : Bool) (c k : ℕ) → (k < 65) ⊎ (122 < k) ⊎ (k ≡ 92) → (fold_char fold c == k) ≡ (c == k)
unfolding fold_char
fold_char-other fold c k h = ground arith

is_free-folded :
    (fold : Bool) (prev : Option ℕ) → is_free (Option.map (fold_char fold) prev) ≡ is_free prev
unfolding is_free move_lead move_name fold_char
is_free-folded fold none = refl
is_free-folded fold (some c) = ground arith

move_glue-fold_char : (fold : Bool) (c : ℕ) → move_glue (fold_char fold c) ≡ move_glue c
unfolding move_glue fold_char move_name
move_glue-fold_char fold c = ground arith

path_end-folded : (fold : Bool) (s : Text) → path_end (folded fold s) ≡ path_end s
unfolding path_end folded move_glue
path_end-folded fold [] = refl
path_end-folded fold (c ∷ []) =
    ground (arith, fold_char-other fold c 46 (omega arith), move_glue-fold_char fold c)
path_end-folded fold (c ∷ d ∷ s) = ground (
  arith,
  fold_char-other fold c 46 (omega arith),
  move_glue-fold_char fold c,
  move_glue-fold_char fold d,
  fold_char-other fold d 32 (omega arith),
  fold_char-other fold d 9 (omega arith),
  fold_char-other fold d 10 (omega arith),
  fold_char-other fold d 13 (omega arith),
  fold_char-other fold d 47 (omega arith),
  fold_char-other fold d 92 (omega arith),
)

-- The loops of replacePathFold and countPath take the same step.
count_at-folded :
    (fold : Bool) (from : Text) (next : Option ℕ → Text → Option ℕ) (prev : Option ℕ) (s : Text)
    (j : ℕ)
    → count_at (folded fold from) next (Option.map (fold_char fold) prev) (folded fold s) (some j)
      ≡ tally (is_free (last_of prev (take j s)) && path_end (drop (length from) (drop j s))) (
          next
            (Option.map
              (fold_char fold)
              (last_of (last_of prev (take j s)) (take (length from) (drop j s))))
            (folded fold (drop (length from) (drop j s))))
unfolding count_at
count_at-folded fold from next prev s j =
    simp (length-folded, take-folded, drop-folded, last_of-folded, is_free-folded, path_end-folded)
      refl

abbrev Outcome : Bool → Text → Text → Option ℕ → Text → Option (Text × ℕ) → Option ℕ → Type 0
Outcome fold from to prev s found counted =
    (out : Text) × (n : ℕ) × (found ≡ some (out, n))
    × Rewritten fold from to prev s out n
    × (counted ≡ some n)

place-lem :
    (fold hit : Bool) (from to : Text) (prev : Option ℕ) (before word after : Text)
    (found : Option (Text × ℕ)) (counted : Option ℕ)
    → hit ≡ is_free (last_of prev before) && path_end after
    → folded fold word ≡ folded fold from
    → Outcome fold from to (last_of (last_of prev before) word) after found counted
    → Outcome fold from to prev
        (before ++ (word ++ after))
        (place hit before word to found)
        (tally hit counted)
place-lem fold true from to prev before word after found counted h same (rest, n, f, done, c) = (
  before ++ (to ++ rest),
  suc n,
  rw f refl,
  replaced before word after rest refl same (ground arith) (ground arith) done refl,
  rw c refl,
)
place-lem fold false from to prev before word after found counted h same (rest, n, f, done, c) = (
  before ++ (word ++ rest),
  n,
  rw f refl,
  passed prev before (word ++ after) (word ++ rest) n (passed _ word after rest n done),
  rw c refl,
)

count_at-none :
    (pattern : Text) (next : Option ℕ → Text → Option ℕ) (prev : Option ℕ) (s : Text)
    → count_at pattern next prev s none ≡ some 0
unfolding count_at
count_at-none pattern next prev s = refl

cut_in_three : (j n : ℕ) (s : Text) → take j s ++ (take n (drop j s) ++ drop n (drop j s)) ≡ s
cut_in_three j n s = rw (take-append-drop n (drop j s)) (take-append-drop j s)

-- What strings.Index finds is spelled like the pattern, up to the folding.
word_folded :
    (fold : Bool) (from s : Text) (j : ℕ)
    → index (folded fold from) (folded fold s) ≡ some j
    → folded fold (take (length from) (drop j s)) ≡ folded fold from
word_folded fold from s j e =
    let h = index-take (folded fold from) (folded fold s) j e in
    sym (take-folded fold (length from) (drop j s))
    ∙ ap (λ t. take (length from) t) (sym (drop-folded fold j s))
    ∙ rw (length-folded fold from) at h

replace_at-lem :
    (fold : Bool) (from to : Text) (next : Option ℕ → Text → Option (Text × ℕ))
    (count : Option ℕ → Text → Option ℕ) (prev : Option ℕ) (s : Text) (o : Option ℕ)
    → index (folded fold from) (folded fold s) ≡ o
    → ((j : ℕ) (p : Option ℕ)
        → o ≡ some j
        → Outcome fold from to p
            (drop (length from) (drop j s))
            (next p (drop (length from) (drop j s)))
            (count (Option.map (fold_char fold) p) (folded fold (drop (length from) (drop j s)))))
    → Outcome fold from to prev s
        (replace_at fold from to next prev s o)
        (count_at (folded fold from) count (Option.map (fold_char fold) prev) (folded fold s) o)
unfolding replace_at
replace_at-lem fold from to next count prev s none at ih =
    (s, 0, refl, kept, count_at-none (folded fold from) count _ (folded fold s))
replace_at-lem fold from to next count prev s (some j) at ih =
    rw (count_at-folded fold from count prev s j) (
      subst
        (λ (t : Text).
          Outcome fold from to prev t
            (place (is_free (last_of prev (take j s)) && path_end (drop (length from) (drop j s)))
              (take j s) (take (length from) (drop j s)) to
              (next (last_of (last_of prev (take j s)) (take (length from) (drop j s)))
                (drop (length from) (drop j s))))
            (tally (is_free (last_of prev (take j s)) && path_end (drop (length from) (drop j s))) (
              count
                (Option.map (fold_char fold)
                  (last_of (last_of prev (take j s)) (take (length from) (drop j s))))
                (folded fold (drop (length from) (drop j s))))))
        (cut_in_three j (length from) s)
        (place-lem fold _ from to prev (take j s) (take (length from) (drop j s))
          (drop (length from) (drop j s)) _ _ refl (word_folded fold from s j at) (ih j _ refl)))

-- Each round reads something.
drop_shorter :
    (fold : Bool) (a : ℕ) (from s : Text) (j fuel : ℕ)
    → index (folded fold (a ∷ from)) (folded fold s) ≡ some j
    → length s < suc fuel
    → length (drop (suc (length from)) (drop j s)) < fuel
unfolding index folded
drop_shorter fold a from [] j fuel e lt = ground arith
drop_shorter fold a from (c ∷ s) j fuel e lt =
    elim (drop j (c ∷ s))
        as (λ t. length t ≤ length (c ∷ s) → length (drop (suc (length from)) t) < fuel) [
          | [] ↦ λ h. omega (arith, lt)
          | d ∷ t ↦ λ h. omega (arith, lt, length-drop_le (length from) t)
        ]
      (length-drop_le j (c ∷ s))

replace_from-lem :
    (fold : Bool) (a : ℕ) (from to : Text) (fuel : ℕ) (prev : Option ℕ) (s : Text)
    → length s < fuel
    → Outcome fold (a ∷ from) to prev s (replace_from fold (a ∷ from) to fuel prev s) (
        count_from (folded fold (a ∷ from)) fuel (Option.map (fold_char fold) prev) (folded fold s))
unfolding replace_from count_from
replace_from-lem fold a from to zero prev s lt = ground arith
replace_from-lem fold a from to (suc fuel) prev s lt =
    replace_at-lem fold (a ∷ from) to (replace_from fold (a ∷ from) to fuel)
      (count_from (folded fold (a ∷ from)) fuel) prev s
      (index (folded fold (a ∷ from)) (folded fold s)) refl
      (λ j p e.
        replace_from-lem fold a from to fuel p (drop (length (a ∷ from)) (drop j s))
          (drop_shorter fold a from s j fuel e lt))

count_path-folded :
    (fold : Bool) (a : ℕ) (from : Text) (c : ℕ) (s : Text)
    → count_path (folded fold (c ∷ s)) (folded fold (a ∷ from))
      ≡ count_from (folded fold (a ∷ from)) (suc (length (c ∷ s))) none (folded fold (c ∷ s))
unfolding count_path folded
count_path-folded fold a from c s =
    ap (λ n. count_from (folded fold (a ∷ from)) (suc (suc n)) none (folded fold (c ∷ s)))
      (length-folded fold s)

-- replacePathFold ends; its text is the given one with n parts that are spelled like `from`, up to the
-- folding, replaced by `to`, where each such part stands at the start or behind a character for
-- which moveLead is false, and pathEnd holds behind it; and n, which it returns, is what countPath
-- finds by searching the folded text for the folded path.
pub replace_path_fold-Rewritten :
    (fold : Bool) (s from to : Text)
    → (out : Text) × (n : ℕ) × (replace_path_fold fold s from to ≡ some (out, n))
      × Rewritten fold from to none s out n
      × (count_path (folded fold s) (folded fold from) ≡ some n)
unfolding replace_path_fold count_path folded
replace_path_fold-Rewritten fold [] from to = ([], 0, refl, kept, refl)
replace_path_fold-Rewritten fold (c ∷ s) [] to = (c ∷ s, 0, refl, kept, refl)
replace_path_fold-Rewritten fold (c ∷ s) (a ∷ from) to =
    let (out, n, found, done, counted) =
      replace_from-lem fold a from to (suc (length (c ∷ s))) none (c ∷ s) (omega arith) in
    (out, n, found, done, count_path-folded fold a from c s ∙ counted)
