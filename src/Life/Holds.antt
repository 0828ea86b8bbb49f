-- ===== src/Life/Holds.antt =====
-- Owning resources: how what is live splits into what an object holds and the rest, which its functions
-- leave alone.
use pluto_project.Base.{
  ℕ, ◌+◌, ◌≡◌, refl, Option, none, some, List, [], ◌∷◌, ◌++◌, arith, ◌==◌, if◌then◌else◌,
  Bool-cases, inl, inr,
}
use pluto_project.Life.{
  World, Outcome, returned, stopped, broken, Prog, bound, answered, acquire, remove, release,
}

abbrev pub once : ℕ → ℕ → ℕ
once a b = if b == a then 1 else 0

-- How often a number is live.
abbrev pub count : ℕ → List ℕ → ℕ
count a [] = 0
count a (b ∷ l) = once a b + count a l

-- How often it is among pointers, of which those that are NULL hold nothing.
abbrev pub held : ℕ → List (Option ℕ) → ℕ
held a [] = 0
held a (none ∷ ps) = held a ps
held a (some b ∷ ps) = once a b + held a ps

-- What is live is what the pointers hold, and the rest.
abbrev pub Holds : List (Option ℕ) → (ℕ → ℕ) → World → Type 0
Holds ps rest w = (a : ℕ) → count a w.live ≡ held a ps + rest a

-- A call does not break anything, and what it returns is as `Q` says.
abbrev pub Ok : {A : Type 0} → (A → World → Type 0) → Outcome A → Type 0
Ok Q (returned a w) = Q a w
Ok Q stopped = Unit
Ok Q broken = ⊥

pub Ok-bind :
    {A B : Type 0} (P : A → World → Type 0) (Q : B → World → Type 0) (o : Outcome A)
    (f : A → Prog B)
    → Ok P o
    → ((a : A) (w : World) → P a w → Ok Q (f a w))
    → Ok Q (bound o f)
Ok-bind P Q (returned a w) f p h = h a w p
Ok-bind P Q stopped f p h = tt
Ok-bind P Q broken f p h = p

pub Ok-imp :
    {A : Type 0} (P Q : A → World → Type 0) (o : Outcome A)
    → Ok P o
    → ((a : A) (w : World) → P a w → Q a w)
    → Ok Q o
Ok-imp P Q (returned a w) p h = h a w p
Ok-imp P Q stopped p h = tt
Ok-imp P Q broken p h = p

pub held-append : (a : ℕ) (ps qs : List (Option ℕ)) → held a (ps ++ qs) ≡ held a ps + held a qs
held-append a [] qs = omega arith
held-append a (none ∷ ps) qs = held-append a ps qs
held-append a (some b ∷ ps) qs = omega (arith, held-append a ps qs)

abbrev pub one : ℕ → Option ℕ → ℕ
one a p = held a (p ∷ [])

pub held-cons :
    (a : ℕ) (p : Option ℕ) (ps : List (Option ℕ)) → held a (p ∷ ps) ≡ one a p + held a ps
held-cons a none ps = omega arith
held-cons a (some b) ps = omega arith

pub regroup :
    (ps qs : List (Option ℕ)) (rest : ℕ → ℕ) (w : World)
    → ((a : ℕ) → held a ps ≡ held a qs)
    → Holds ps rest w
    → Holds qs rest w
regroup ps qs rest w same h a = omega (arith, same a, h a)

pub acquire-Holds :
    (ps : List (Option ℕ)) (rest : ℕ → ℕ) (w : World)
    → Holds ps rest w
    → Ok (λ p w'. Holds (p ∷ ps) rest w') (acquire w)
unfolding acquire
acquire-Holds ps rest w h = by_answer w.answers
  where
    by_answer : (l : List (Option ℕ)) → Ok (λ p w'. Holds (p ∷ ps) rest w') (answered l w)
    by_answer [] = h
    by_answer (none ∷ l) = h
    by_answer (some b ∷ l) = λ a. omega (arith, h a)

-- A live number can be taken out.
removes :
    (a : ℕ) (l : List ℕ) (n : ℕ)
    → count a l ≡ n + 1
    → (l' : List ℕ) × (remove a l ≡ some l') × ((b : ℕ) → count b l ≡ once b a + count b l')
removes a [] n h = absurd (omega arith)
removes a (b ∷ l) n h = elim (Bool-cases (b == a)) [
  | inl same ↦ (l, rw same refl, λ c. ground arith)
  | inr other ↦
      let (l', e, counts) = removes a l n (ground arith) in
      (b ∷ l', rw (other, e) refl, λ c. omega (arith, counts c))
]

pub release-Holds :
    (p : Option ℕ) (ps : List (Option ℕ)) (rest : ℕ → ℕ) (w : World)
    → Holds (p ∷ ps) rest w
    → Ok (λ _ w'. Holds ps rest w') (release p w)
unfolding release
release-Holds none ps rest w h = h
release-Holds (some a) ps rest w h =
    let (l', e, counts) = removes a w.live (held a ps + rest a) (own a (h a)) in
    rw e (λ b. omega (arith, h b, counts b))
  where
    own :
        (a : ℕ)
        → count a w.live ≡ once a a + held a ps + rest a
        → count a w.live ≡ held a ps + rest a + 1
    own a e = ground arith

-- Pointers given back one after another, and what follows.
abbrev pub releases : {A : Type 0} → List (Option ℕ) → Prog A → Prog A
releases [] k w = k w
releases (p ∷ ps) k w = bound (release p w) λ _. releases ps k

pub releases-Ok :
    {A : Type 0} (Q : A → World → Type 0) (ps qs : List (Option ℕ)) (rest : ℕ → ℕ) (k : Prog A)
    (w : World)
    → Holds (ps ++ qs) rest w
    → ((w' : World) → Holds qs rest w' → Ok Q (k w'))
    → Ok Q (releases ps k w)
releases-Ok Q [] qs rest k w h then_k = then_k w h
releases-Ok Q (p ∷ ps) qs rest k w h then_k =
    Ok-bind (λ _ w'. Holds (ps ++ qs) rest w') Q (release p w) (λ _. releases ps k)
      (release-Holds p (ps ++ qs) rest w h) (λ _ w' h'. releases-Ok Q ps qs rest k w' h' then_k)

pub acquire-Ok :
    {A : Type 0} (Q : A → World → Type 0) (ps : List (Option ℕ)) (rest : ℕ → ℕ)
    (k : Option ℕ → Prog A) (w : World)
    → Holds ps rest w
    → ((p : Option ℕ) (w' : World) → Holds (p ∷ ps) rest w' → Ok Q (k p w'))
    → Ok Q (bound (acquire w) k)
acquire-Ok Q ps rest k w h then_k =
    Ok-bind (λ p w'. Holds (p ∷ ps) rest w') Q (acquire w) k (acquire-Holds ps rest w h) then_k
