-- ===== src/Validation/Schema/Calm.antt =====
-- Steps of the validation that do not raise.
use execution_engine.Common.{
  ◌≢◌, refl, arith, String, Bool, not, Option, none, some, List, [], ◌∷◌, All, All-weaken,
}
use execution_engine.Validation.Json.{Json, JsonDict, Python}
use execution_engine.Validation.Schema.Rules.{
  Place, at_key, Message, Details, Walk, exhausted, raised, done, and_then, each, add_when,
  required_missing, pattern_mismatch, is_missing, pattern_allows,
}
use execution_engine.Validation.Schema.Visit.{
  matching, fail_with_best, check_required, check_additional, check_pattern,
}

-- the step does not raise, and what it gives satisfies `Q`
pub data Calm {A : Type 0} (Q : A → Type 0) : Walk A → Type 0 where
  spent : Calm Q exhausted
  calm : (a : A) → Q a → Calm Q (done a)

pub Calm-raised : {A : Type 0} (Q : A → Type 0) (w : Walk A) → Calm Q w → w ≢ raised
Calm-raised Q raised c e = elim c [ ]
Calm-raised Q exhausted c e = ground (arith, e)
Calm-raised Q (done a) c e = ground (arith, e)

pub Calm-and_then :
    {A B : Type 0} (P : A → Type 0) (Q : B → Type 0) (w : Walk A) (f : A → Walk B)
    → Calm P w
    → ((a : A) → P a → Calm Q (f a))
    → Calm Q (and_then w f)
Calm-and_then P Q exhausted f c next = spent
Calm-and_then P Q raised f c next = elim c [ ]
Calm-and_then P Q (done a) f (calm _ p) next = next a p

-- of errors nothing is asked
abbrev pub AnyDetails : Details → Type 0
AnyDetails e = Unit

abbrev pub Quiet : Walk Details → Type 0
Quiet w = Calm AnyDetails w

pub Quiet-and_then :
    (w : Walk Details) (f : Details → Walk Details)
    → Quiet w
    → ((e : Details) → Quiet (f e))
    → Quiet (and_then w f)
Quiet-and_then w f c next = Calm-and_then AnyDetails AnyDetails w f c (λ e _. next e)

pub Quiet-each :
    {A : Type 0} (step : A → Details → Walk Details) (xs : List A)
    → All (λ x. (e : Details) → Quiet (step x e)) xs
    → (e : Details) → Quiet (each step xs e)
unfolding each
Quiet-each step [] a e = calm e tt
Quiet-each step (x ∷ xs) a e =
    Quiet-and_then (step x e) (each step xs) (a.0 e) (Quiet-each step xs a.1)

pub Quiet-add_when : (t : Bool) (p : Place) (m : Message) (e : Details) → Quiet (add_when t p m e)
unfolding add_when
Quiet-add_when t p m e = calm _ tt

pub Quiet-each_required :
    (item : JsonDict) (path : Place) (required : List Json)
    → All (λ key. is_missing item key ≢ none) required
    → (e : Details) → Quiet (each (check_required item path) required e)
unfolding check_required
Quiet-each_required item path required a =
    Quiet-each (check_required item path) required
      (All-weaken _ _ (λ key h e. of key e (is_missing item key) h) required a)
  where
    of :
        (key : Json) (e : Details) (o : Option Bool)
        → o ≢ none
        → Quiet (elim o [
          | none ↦ raised
          | some missing ↦ add_when missing (at_key path key) required_missing e
        ])
    of key e none h = absurd (h refl)
    of key e (some b) h = Quiet-add_when b (at_key path key) required_missing e

pub Quiet-check_pattern :
    (py : Python) (s : String) (pattern : Json)
    → pattern_allows py s pattern ≢ none
    → (path : Place) (e : Details) → Quiet (check_pattern py s pattern path e)
unfolding check_pattern
Quiet-check_pattern py s pattern h path e = of (pattern_allows py s pattern) h
  where
    of :
        (o : Option Bool)
        → o ≢ none
        → Quiet
            (elim o [ none ↦ raised | some found ↦ add_when (not found) path pattern_mismatch e ])
    of none h = absurd (h refl)
    of (some b) h = Quiet-add_when (not b) path pattern_mismatch e

pub check_additional-Quiet :
    (properties : JsonDict) (path : Place) (f : String × Json) (e : Details)
    → Quiet (check_additional properties path f e)
unfolding check_additional
check_additional-Quiet properties path f e = Quiet-add_when _ _ _ e

pub All-always : {A : Type 0} (P : A → Type 0) → ((x : A) → P x) → (xs : List A) → All P xs
All-always P f [] = tt
All-always P f (x ∷ xs) = (f x, All-always P f xs)

pub matching-All :
    (P : Json → Type 0) (es : List (Json × Details))
    → All (λ (e : Json × Details). P e.0) es
    → All P (matching es)
unfolding matching
matching-All P [] a = tt
matching-All P ((c, []) ∷ es) a = (a.0, matching-All P es a.1)
matching-All P ((c, d ∷ ds) ∷ es) a = matching-All P es a.1

pub Quiet-fail_with_best :
    (m : Message) (path : Place) (es : List (Json × Details)) (e : Details)
    → Quiet (fail_with_best m path es e)
unfolding fail_with_best
Quiet-fail_with_best m path [] e = calm _ tt
Quiet-fail_with_best m path (x ∷ es) e = calm _ tt
