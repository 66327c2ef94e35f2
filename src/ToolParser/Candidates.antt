-- ===== src/ToolParser/Candidates.antt =====
-- Which texts are given to json.loads.
use mathlib.Core.Path.{subst}
use mathlib.Core.Logic.Or
use mathlib.Core.List.{Mem, Mem-prop, mem-cons, not-mem-nil}
use existential_identity_tes.Base.{
  ◌≡◌, refl, sym, ap, ◌∙◌, ℕ, ◌+◌, ◌==◌, if◌then◌else◌, Bool, true, false, List, [], ◌∷◌, ◌++◌,
  Option, none, some, length, arith,
}
use existential_identity_tes.ToolParser.{
  add_candidate, open_brace, brace_positions, after_quote, candidates_at, json_candidates,
  extract_json_object,
}
use existential_identity_tes.ToolParser.Objects.{Body, print_object, extract_json_object-print}

mem-first {ℓ} : {A : Type ℓ} (x : A) (xs : List A) → Mem x (x ∷ xs)
mem-first x xs = mem-cons.1 (Or.inl refl)

mem-later {ℓ} : {A : Type ℓ} (x y : A) (xs : List A) → Mem x xs → Mem x (y ∷ xs)
mem-later x y xs m = mem-cons.1 (Or.inr m)

mem-if {ℓ} :
    {A : Type ℓ} (b : Bool) (x y : A) (xs : List A) → Mem x xs → Mem x (if b then y ∷ xs else xs)
mem-if true x y xs m = mem-later x y xs m
mem-if false x y xs m = m

brace_positions-Mem :
    (i : ℕ) (before rest : List ℕ)
    → Mem (i + length before) (brace_positions i (before ++ (open_brace ∷ rest)))
unfolding brace_positions
brace_positions-Mem i [] rest =
    subst (λ k. Mem k (i ∷ brace_positions (i + 1) rest)) (omega arith) (mem-first i _)
brace_positions-Mem i (c ∷ before) rest = mem-if (c == open_brace) _ i _ (
    subst (λ k. Mem k (brace_positions (i + 1) (before ++ (open_brace ∷ rest)))) (omega arith)
      (brace_positions-Mem (i + 1) before rest))

mem-add :
    (skipped : Bool) (found : Option (List ℕ)) (c : List ℕ) (rest : List (List ℕ))
    → Mem c rest
    → Mem c (add_candidate skipped found rest)
mem-add true found c rest m = m
mem-add false none c rest m = m
mem-add false (some d) c rest m = mem-later c d rest m

mem-added :
    {skipped : Bool} {found : Option (List ℕ)} (c : List ℕ) (rest : List (List ℕ))
    → skipped ≡ false
    → found ≡ some c
    → Mem c (add_candidate skipped found rest)
mem-added c rest a e = rw (a, e) (mem-first c rest)

candidates_at-Mem :
    (text positions c : List ℕ) (i : ℕ)
    → after_quote text i ≡ false
    → extract_json_object text i ≡ some c
    → Mem i positions
    → Mem c (candidates_at text positions)
unfolding candidates_at
candidates_at-Mem text [] c i a e m = absurd (not-mem-nil m)
candidates_at-Mem text (j ∷ positions) c i a e m =
    Or.elim Mem-prop (mem-cons.0 m)
      (λ q.
        mem-added c _ (ap (after_quote text) (sym q) ∙ a)
          (ap (extract_json_object text) (sym q) ∙ e))
      (λ n. mem-add _ _ c _ (candidates_at-Mem text positions c i a e n))

-- An object at the start of a text, or after any character but a quote, is among the texts that are
-- read as JSON, whatever stands around it.
pub json_candidates-print :
    (before : List ℕ) (b : Body) (rest : List ℕ)
    → after_quote (before ++ (print_object b ++ rest)) (length before) ≡ false
    → Mem (print_object b) (json_candidates (before ++ (print_object b ++ rest)))
unfolding json_candidates
json_candidates-print before b rest a =
    candidates_at-Mem _ _ (print_object b) (length before) a
      (extract_json_object-print before b rest)
      (subst (λ k. Mem k (brace_positions 0 (before ++ (print_object b ++ rest)))) (omega arith)
        (brace_positions-Mem 0 before _))
