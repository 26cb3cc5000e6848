-- ===== src/Validation/Schema/Verdict.antt =====
-- The verdict of a step of the validation: it raises, passes and leaves the errors as they were, or
-- fails and adds at least one error.
use execution_engine.Common.{
  ◌≡◌, ◌≤◌, refl, sym, subst, arith, Bool, true, false, List, [], ◌∷◌, ◌++◌, length, All,
  length-append,
}
use execution_engine.Validation.Schema.Rules.{
  Place, Message, Detail, Details, Walk, raised, done, and_then, add_detail, add_details, add_when,
  detail, each, max_validation_errors,
}

pub data Verdict {ℓ} (P : Type ℓ) (errors : Details) : Walk Details → Type ℓ where
  halts : Verdict P errors raised
  passes : P → Verdict P errors (done errors)
  fails : ¬ P → (d : Detail) (ds : Details) → Verdict P errors (done (add_details errors (d ∷ ds)))

pub add_details-append :
    (errors ds es : Details)
    → add_details (add_details errors ds) es ≡ add_details errors (ds ++ es)
unfolding add_details
add_details-append errors [] es = refl
add_details-append errors (d ∷ ds) es = add_details-append (add_detail errors d) ds es

pub refuses {ℓ} :
    {P : Type ℓ} (errors : Details) (d : Detail)
    → ¬ P
    → Verdict P errors (done (add_detail errors d))
unfolding add_details
refuses errors d bad = fails bad d []

pub Verdict-iff {ℓ κ} :
    {P : Type ℓ} {Q : Type κ} {errors : Details} {w : Walk Details}
    → (P → Q)
    → (Q → P)
    → Verdict P errors w
    → Verdict Q errors w
Verdict-iff to from halts = halts
Verdict-iff to from (passes p) = passes (to p)
Verdict-iff to from (fails bad d ds) = fails (λ q. bad (from q)) d ds

-- a step whose property is known to hold passes
pub Verdict-known {ℓ κ} :
    {P : Type ℓ} {Q : Type κ} {errors : Details} {w : Walk Details}
    → P
    → Q
    → Verdict P errors w
    → Verdict Q errors w
Verdict-known p q halts = halts
Verdict-known p q (passes _) = passes q
Verdict-known p q (fails bad d ds) = absurd (bad p)

-- two steps in sequence check both properties, whatever the first has added
pub Verdict-and_then {ℓ κ} :
    {P : Type ℓ} {Q : Type κ} {errors : Details} {w : Walk Details} {f : Details → Walk Details}
    → Verdict P errors w
    → ((e : Details) → Verdict Q e (f e))
    → Verdict (P × Q) errors (and_then w f)
Verdict-and_then halts g = halts
Verdict-and_then {errors = errors} (passes p) g =
    Verdict-iff (λ q. (p, q)) (λ both. both.1) (g errors)
Verdict-and_then {P = P} {Q = Q} {errors = errors} {f = f} (fails bad d ds) g =
    go (f (add_details errors (d ∷ ds))) (g (add_details errors (d ∷ ds)))
  where
    go : (w : Walk Details) → Verdict Q (add_details errors (d ∷ ds)) w → Verdict (P × Q) errors w
    go w halts = halts
    go w (passes q) = fails (λ both. bad both.0) d ds
    go w (fails bad' e es) =
        subst (λ out. Verdict (P × Q) errors (done out))
          (sym (add_details-append errors (d ∷ ds) (e ∷ es)))
          (fails (λ both. bad both.0) d (ds ++ e ∷ es))

pub Verdict-in_order {ℓ κ μ} :
    {P : Type ℓ} {Q : Type κ} {R : Type μ} {errors : Details} {w : Walk Details}
    {f g : Details → Walk Details}
    → Verdict P errors w
    → ((e : Details) → Verdict Q e (f e))
    → ((e : Details) → Verdict R e (g e))
    → Verdict (P × Q × R) errors (and_then w (λ e. and_then (f e) g))
Verdict-in_order v q r =
    Verdict-iff (λ t. (t.0, t.1.0, t.1.1)) (λ t. (t.0, (t.1, t.2)))
      (Verdict-and_then v (λ e. Verdict-and_then (q e) r))

pub Verdict-each {ℓ κ} :
    {A : Type ℓ} (P : A → Type κ) (step : A → Details → Walk Details)
    → (xs : List A) → All (λ x. (e : Details) → Verdict (P x) e (step x e)) xs
    → (errors : Details) → Verdict (All P xs) errors (each step xs errors)
unfolding each
Verdict-each P step [] a errors = passes tt
Verdict-each P step (x ∷ xs) a errors =
    Verdict-and_then (a.0 errors) (λ e. Verdict-each P step xs a.1 e)

-- an error under a test
pub Verdict-add_when :
    (test : Bool) (path : Place) (m : Message) (errors : Details)
    → Verdict (test ≡ false) errors (add_when test path m errors)
unfolding add_when
Verdict-add_when true path m errors = refuses errors (detail path m) (λ h. ground (arith, h))
Verdict-add_when false path m errors = passes refl

-- the list never grows beyond its bound
pub add_details-bounded :
    (errors ds : Details)
    → length errors ≤ max_validation_errors
    → length (add_details errors ds) ≤ max_validation_errors
unfolding add_details add_detail
add_details-bounded errors [] h = h
add_details-bounded errors (d ∷ ds) h =
    add_details-bounded (add_detail errors d) ds (ground (arith, length-append errors (d ∷ [])))
