-- ===== src/Prelude/Calls.antt =====
-- Calls that have an outcome and leave a state, and that run out of fuel or not: their sequence, loops of
-- them, that they return, and what they leave alone.
use mathlib.Core.Path.{◌≡◌, refl, ap, ◌∙◌, subst}
use mathlib.Core.Option.{Option, none, some}
use mathlib.Core.Bool.{Bool, true, false}
use mathlib.Core.List.{List, [], ◌∷◌}
use aws_build_farm.Prelude.Tests.{if◌then◌else◌}
use aws_build_farm.Prelude.Lists.{All}
use aws_build_farm.Prelude.Results.{Result, ok, err, panic}

-- A call that has an outcome and leaves a state, or that ran out of fuel. What follows one that may fail:
-- an error or a panic passes through.
unfoldable pub after :
    {S E A B : Type 0}
    → Option (Result E A × S)
    → (A → S → Option (Result E B × S))
    → Option (Result E B × S)
after none k = none
after (some (ok a, w)) k = k a w
after (some (err e, w)) k = some (err e, w)
after (some (panic, w)) k = some (panic, w)

pub after-ok :
    {S E A B : Type 0} (m : Option (Result E A × S)) (k : A → S → Option (Result E B × S)) (b : B)
    (s : S)
    → after m k ≡ some (ok b, s)
    → (a : A) × (s₁ : S) × (m ≡ some (ok a, s₁)) × (k a s₁ ≡ some (ok b, s))
unfolding after
after-ok none k b s h = absurd (cc)
after-ok (some (ok a, s₁)) k b s h = (a, s₁, refl, h)
after-ok (some (err x, s₁)) k b s h = absurd (cc)
after-ok (some (panic, s₁)) k b s h = absurd (cc)

-- The call returns.
unfoldable pub Returns : {A : Type 0} → Option A → Type 0
Returns {A} m = (r : A) × (m ≡ some r)

pub after-Returns :
    {S E A B : Type 0} (m : Option (Result E A × S)) (k : A → S → Option (Result E B × S))
    → Returns m
    → ((a : A) (s : S) → m ≡ some (ok a, s) → Returns (k a s))
    → Returns (after m k)
unfolding Returns after
after-Returns m k ((ok a, s), e) f = let (r, h) = f a s e in (r, ap (λ t. after t k) e ∙ h)
after-Returns m k ((err x, s), e) f = ((err x, s), ap (λ t. after t k) e)
after-Returns m k ((panic, s), e) f = ((panic, s), ap (λ t. after t k) e)

pub if-Returns :
    {A : Type 0} (b : Bool) (m k : Option A) → Returns m → Returns k → Returns (if b then m else k)
if-Returns true m k h g = h
if-Returns false m k h g = g

-- `I` holds of the state that a call leaves.
unfoldable pub Keeps : {S R : Type 0} → (S → Type 0) → Option (R × S) → Type 0
Keeps I none = Unit {0}
Keeps I (some (r, s)) = I s

pub none-Keeps : {S : Type 0} (R : Type 0) (I : S → Type 0) → Keeps {R = R} I none
unfolding Keeps
none-Keeps R I = tt

pub some-Keeps : {S R : Type 0} (I : S → Type 0) (r : R) (s : S) → I s → Keeps I (some (r, s))
unfolding Keeps
some-Keeps I r s h = h

pub if-Keeps :
    {S R : Type 0} (I : S → Type 0) (b : Bool) (m k : Option (R × S))
    → Keeps I m
    → Keeps I k
    → Keeps I (if b then m else k)
if-Keeps I true m k h g = h
if-Keeps I false m k h g = g

pub after-Keeps :
    {S E A B : Type 0} (I : S → Type 0) (m : Option (Result E A × S))
    (k : A → S → Option (Result E B × S))
    → Keeps I m
    → ((a : A) (s : S) → I s → Keeps I (k a s))
    → Keeps I (after m k)
unfolding Keeps after
after-Keeps I none k h f = tt
after-Keeps I (some (ok a, s)) k h f = f a s h
after-Keeps I (some (err x, s)) k h f = h
after-Keeps I (some (panic, s)) k h f = h

-- A loop over a list, with what it has made so far: it ends at the first failure.
abbrev pub fold_calls :
    {S E A X : Type 0}
    → (A → X → S → Option (Result E A × S))
    → A
    → List X
    → S
    → Option (Result E A × S)
fold_calls f acc [] s = some (ok acc, s)
fold_calls f acc (x ∷ xs) s = after (f acc x s) (λ acc' s'. fold_calls f acc' xs s')

pub fold_calls-Keeps :
    {S E A X : Type 0} (I : S → Type 0) (f : A → X → S → Option (Result E A × S))
    → ((acc : A) (x : X) (s : S) → I s → Keeps I (f acc x s))
    → (acc : A) (xs : List X) (s : S) → I s
    → Keeps I (fold_calls f acc xs s)
unfolding Keeps
fold_calls-Keeps I f step acc [] s h = h
fold_calls-Keeps I f step acc (x ∷ xs) s h =
    after-Keeps I (f acc x s) _ (step acc x s h)
      (λ acc' s' h'. fold_calls-Keeps I f step acc' xs s' h')

pub fold_calls-Returns :
    {S E A X : Type 0} (f : A → X → S → Option (Result E A × S)) (xs : List X)
    → All (λ x. (acc : A) (s : S) → Returns (f acc x s)) xs
    → (acc : A) (s : S) → Returns (fold_calls f acc xs s)
unfolding Returns
fold_calls-Returns f [] h acc s = ((ok acc, s), refl)
fold_calls-Returns f (x ∷ xs) (h, hs) acc s =
    after-Returns (f acc x s) _ (h acc s) (λ acc' s' _. fold_calls-Returns f xs hs acc' s')

-- The same call, with its error wrapped.
abbrev pub map_err :
    {S E F A : Type 0} → (E → F) → Option (Result E A × S) → Option (Result F A × S)
map_err f none = none
map_err f (some (ok a, s)) = some (ok a, s)
map_err f (some (err e, s)) = some (err (f e), s)
map_err f (some (panic, s)) = some (panic, s)

pub map_err-Keeps :
    {S E F A : Type 0} (I : S → Type 0) (f : E → F) (m : Option (Result E A × S))
    → Keeps I m
    → Keeps I (map_err f m)
unfolding Keeps
map_err-Keeps I f none h = h
map_err-Keeps I f (some (ok a, s)) h = h
map_err-Keeps I f (some (err e, s)) h = h
map_err-Keeps I f (some (panic, s)) h = h

-- A call that ends without an error gives an outcome and a state with `Q`.
unfoldable pub Ensures : {S E A : Type 0} → (A → S → Type 0) → Option (Result E A × S) → Type 0
Ensures Q none = Unit {0}
Ensures Q (some (ok a, s)) = Q a s
Ensures Q (some (err e, s)) = Unit {0}
Ensures Q (some (panic, s)) = Unit {0}

pub after-Ensures :
    {S E A B : Type 0} (Q : A → S → Type 0) (R : B → S → Type 0) (m : Option (Result E A × S))
    (k : A → S → Option (Result E B × S))
    → Ensures Q m
    → ((a : A) (s : S) → Q a s → Ensures R (k a s))
    → Ensures R (after m k)
unfolding Ensures after
after-Ensures Q R none k h f = tt
after-Ensures Q R (some (ok a, s)) k h f = f a s h
after-Ensures Q R (some (err x, s)) k h f = tt
after-Ensures Q R (some (panic, s)) k h f = tt

pub Ensures-imp :
    {S E A : Type 0} (Q R : A → S → Type 0) (m : Option (Result E A × S))
    → ((a : A) (s : S) → Q a s → R a s)
    → Ensures Q m
    → Ensures R m
unfolding Ensures
Ensures-imp Q R none f h = tt
Ensures-imp Q R (some (ok a, s)) f h = f a s h
Ensures-imp Q R (some (err x, s)) f h = tt
Ensures-imp Q R (some (panic, s)) f h = tt

pub Ensures-ok :
    {S E A : Type 0} (Q : A → S → Type 0) (m : Option (Result E A × S)) (a : A) (s : S)
    → Ensures Q m
    → m ≡ some (ok a, s)
    → Q a s
unfolding Ensures
Ensures-ok Q m a s h e = subst (Ensures Q) e h

pub some-Ensures :
    {S A : Type 0} (E : Type 0) (Q : A → S → Type 0) (a : A) (s : S)
    → Q a s
    → Ensures {E = E} Q (some (ok a, s))
unfolding Ensures
some-Ensures E Q a s h = h

-- What the last of two calls ensures, whatever the first gives.
pub last-Ensures :
    {S E A B : Type 0} (R : B → S → Type 0) (m : Option (Result E A × S))
    (k : A → S → Option (Result E B × S))
    → ((a : A) (s : S) → Ensures R (k a s))
    → Ensures R (after m k)
unfolding Ensures after
last-Ensures R none k f = tt
last-Ensures R (some (ok a, s)) k f = f a s
last-Ensures R (some (err x, s)) k f = tt
last-Ensures R (some (panic, s)) k f = tt

pub if-Ensures :
    {S E A : Type 0} (Q : A → S → Type 0) (b : Bool) (m k : Option (Result E A × S))
    → Ensures Q m
    → Ensures Q k
    → Ensures Q (if b then m else k)
if-Ensures Q true m k h g = h
if-Ensures Q false m k h g = g

pub fold_calls-Ensures :
    {S E A X : Type 0} (Q : A → S → Type 0) (f : A → X → S → Option (Result E A × S))
    → ((acc : A) (x : X) (s : S) → Q acc s → Ensures Q (f acc x s))
    → (acc : A) (xs : List X) (s : S) → Q acc s
    → Ensures Q (fold_calls f acc xs s)
unfolding Ensures
fold_calls-Ensures Q f step acc [] s h = h
fold_calls-Ensures Q f step acc (x ∷ xs) s h =
    after-Ensures Q Q (f acc x s) _ (step acc x s h)
      (λ acc' s' h'. fold_calls-Ensures Q f step acc' xs s' h')

pub map_err-Ensures :
    {S E F A : Type 0} (Q : A → S → Type 0) (f : E → F) (m : Option (Result E A × S))
    → Ensures Q m
    → Ensures Q (map_err f m)
unfolding Ensures
map_err-Ensures Q f none h = h
map_err-Ensures Q f (some (ok a, s)) h = h
map_err-Ensures Q f (some (err e, s)) h = h
map_err-Ensures Q f (some (panic, s)) h = h
