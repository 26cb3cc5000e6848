-- ===== src/Validation/Schema/Candidates.antt =====
-- The trials of the candidates of `oneOf` and `anyOf`, and what the list of the matches says of them.
use execution_engine.Common.{
  ◌≤◌, ◌≡◌, arith, List, [], ◌∷◌, inl, inr, map, length, All, length-append,
}
use execution_engine.Validation.Json.{Json}
use execution_engine.Validation.Schema.Rules.{
  Place, Message, Detail, Details, Walk, raised, done, add_detail, add_details, detail, shortest,
}
use execution_engine.Validation.Schema.Visit.{matching, fail_with_best}
use execution_engine.Validation.Schema.Verdict.{Verdict, fails, refuses}
use execution_engine.Validation.Schema.Typing.{ExactlyOne, SomeOne}

-- the errors are empty for the candidates that match and for no other
pub data Evaluated (P : Json → Type 0) : List Json → List (Json × Details) → Type 0 where
  nothing : Evaluated P [] []
  hit :
      (c : Json) (cs : List Json) (es : List (Json × Details))
      → P c
      → Evaluated P cs es
      → Evaluated P (c ∷ cs) ((c, []) ∷ es)
  miss :
      (c : Json) (d : Detail) (ds : Details) (cs : List Json) (es : List (Json × Details))
      → ¬ P c
      → Evaluated P cs es
      → Evaluated P (c ∷ cs) ((c, d ∷ ds) ∷ es)

pub data Evaluation (P : Json → Type 0) (cs : List Json)
    : Walk (List (Json × Details)) → Type 0 where
  halted : Evaluation P cs raised
  finished : (es : List (Json × Details)) → Evaluated P cs es → Evaluation P cs (done es)

-- what the list of the matches says of the candidates
pub data Matches (P Q : Json → Type 0) (cs : List Json) : List Json → Type 0 where
  without : All (λ c. ¬ P c) cs → Matches P Q cs []
  single : (m : Json) → P m → Q m → ExactlyOne P cs → SomeOne P cs → Matches P Q cs (m ∷ [])
  several :
      (m m' : Json) (ms : List Json)
      → P m
      → Q m
      → ¬ ExactlyOne P cs
      → SomeOne P cs
      → Matches P Q cs (m ∷ m' ∷ ms)

pub none-SomeOne : (P : Json → Type 0) (cs : List Json) → All (λ c. ¬ P c) cs → ¬ SomeOne P cs
none-SomeOne P [] a s = s
none-SomeOne P (c ∷ cs) a (inl p) = a.0 p
none-SomeOne P (c ∷ cs) a (inr s) = none-SomeOne P cs a.1 s

pub none-ExactlyOne : (P : Json → Type 0) (cs : List Json) → All (λ c. ¬ P c) cs → ¬ ExactlyOne P cs
none-ExactlyOne P [] a s = s
none-ExactlyOne P (c ∷ cs) a (inl p) = a.0 p.0
none-ExactlyOne P (c ∷ cs) a (inr s) = none-ExactlyOne P cs a.1 s.1

pub hit-again :
    (P : Json → Type 0) (c : Json) (cs : List Json) → P c → SomeOne P cs → ¬ ExactlyOne P (c ∷ cs)
hit-again P c cs p s (inl both) = none-SomeOne P cs both.1 s
hit-again P c cs p s (inr both) = both.0 p

pub matching-Matches :
    (P Q : Json → Type 0) (cs : List Json) (es : List (Json × Details))
    → Evaluated P cs es
    → All Q cs
    → Matches P Q cs (matching es)
unfolding matching
matching-Matches P Q _ _ nothing q = without tt
matching-Matches P Q _ _ (hit c cs es p rest) q =
    of (matching es) (matching-Matches P Q cs es rest q.1)
  where
    of : (ms : List Json) → Matches P Q cs ms → Matches P Q (c ∷ cs) (c ∷ ms)
    of ms (without a) = single c p q.0 (inl (p, a)) (inl p)
    of ms (single m pm qm e s) = several c m [] p q.0 (hit-again P c cs p s) (inl p)
    of ms (several m m' rest pm qm e s) =
        several c m (m' ∷ rest) p q.0 (hit-again P c cs p s) (inl p)
matching-Matches P Q _ _ (miss c d ds cs es bad rest) q =
    of (matching es) (matching-Matches P Q cs es rest q.1)
  where
    of : (ms : List Json) → Matches P Q cs ms → Matches P Q (c ∷ cs) ms
    of ms (without a) = without (bad, a)
    of ms (single m pm qm e s) = single m pm qm (inr (bad, e)) (inr s)
    of ms (several m m' rest pm qm e s) = several m m' rest pm qm still (inr s)
      where
        still : ¬ ExactlyOne P (c ∷ cs)
        still (inl both) = bad both.0
        still (inr both) = e both.1

pub add_details-grows : (errors ds : Details) → length errors ≤ length (add_details errors ds)
unfolding add_details add_detail
add_details-grows errors [] = omega arith
add_details-grows errors (d ∷ ds) =
    ground (arith, add_details-grows (add_detail errors d) ds, length-append errors (d ∷ []))

pub fails_with :
    {P : Type 0} (errors ds : Details)
    → ¬ P
    → 1 ≤ length ds
    → Verdict P errors (done (add_details errors ds))
fails_with errors [] bad h = absurd (ground (arith, h))
fails_with errors (d ∷ ds) bad h = fails bad d ds

-- without a match every candidate has errors, also the best one
pub candidates_missed :
    (P : Json → Type 0) (cs : List Json) (es : List (Json × Details))
    → Evaluated P cs es
    → matching es ≡ []
    → All (λ (e : Json × Details). 1 ≤ length e.1) es
unfolding matching
candidates_missed P _ _ nothing h = tt
candidates_missed P _ _ (hit c cs es p rest) h = absurd (ground (arith, h))
candidates_missed P _ _ (miss c d ds cs es bad rest) h =
    (omega arith, candidates_missed P cs es rest h)

pub shortest-positive :
    (best : Details) (es : List (Json × Details))
    → 1 ≤ length best
    → All (λ (e : Json × Details). 1 ≤ length e.1) es
    → 1 ≤ length (shortest best (map (λ (x : Json × Details). x.1) es))
unfolding shortest
shortest-positive best [] h a = h
shortest-positive best (e ∷ es) h a =
    ground (arith, shortest-positive best es h a.1, shortest-positive e.1 es a.0 a.1)

pub fail_with_best-fails :
    {R : Type 0} (m : Message) (path : Place) (es : List (Json × Details)) (errors : Details)
    → ¬ R
    → All (λ (e : Json × Details). 1 ≤ length e.1) es
    → Verdict R errors (fail_with_best m path es errors)
unfolding fail_with_best
fail_with_best-fails m path [] errors bad a = refuses errors (detail path m) bad
fail_with_best-fails m path (e ∷ es) errors bad a =
    fails_with errors (shortest e.1 (map (λ (x : Json × Details). x.1) es)) bad
      (shortest-positive e.1 es a.0 a.1)
