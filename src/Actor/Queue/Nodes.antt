-- ===== src/Actor/Queue/Nodes.antt =====
-- Lists of distinct node addresses.
use actorgo.Common.{ℕ, suc, ◌<◌, ◌≢◌, sym, List, [], ◌∷◌, ◌++◌, All, arith}

-- The node is not in the list.
abbrev pub Out : ℕ → List ℕ → Type 0
Out n [] = Unit {0}
Out n (x ∷ xs) = (n ≢ x) × Out n xs

abbrev pub Nodup : List ℕ → Type 0
Nodup [] = Unit {0}
Nodup (x ∷ xs) = Out x xs × Nodup xs

-- No node of the first list is in the second.
abbrev pub Apart : List ℕ → List ℕ → Type 0
Apart [] ys = Unit {0}
Apart (x ∷ xs) ys = Out x ys × Apart xs ys

pub Out-middle : (n x : ℕ) (xs ys : List ℕ) → Out n (xs ++ x ∷ ys) → (n ≢ x) × Out n (xs ++ ys)
Out-middle n x [] ys h = h
Out-middle n x (y ∷ xs) ys h =
    let r : (n ≢ x) × Out n (xs ++ ys) = Out-middle n x xs ys h.1 in (r.0, (h.0, r.1))

pub Out-snoc : (n x : ℕ) (xs : List ℕ) → Out n xs → n ≢ x → Out n (xs ++ x ∷ [])
Out-snoc n x [] h e = (e, tt)
Out-snoc n x (y ∷ xs) h e = (h.0, Out-snoc n x xs h.1 e)

pub Nodup-snoc : (x : ℕ) (xs : List ℕ) → Nodup xs → Out x xs → Nodup (xs ++ x ∷ [])
Nodup-snoc x [] h o = (tt, tt)
Nodup-snoc x (y ∷ xs) h o = (Out-snoc y x xs h.0 (λ e. o.0 (sym e)), Nodup-snoc x xs h.1 o.1)

pub Nodup-middle :
    (x : ℕ) (xs ys : List ℕ) → Nodup (xs ++ x ∷ ys) → Out x (xs ++ ys) × Nodup (xs ++ ys)
Nodup-middle x [] ys h = h
Nodup-middle x (y ∷ xs) ys h =
    let r : Out x (xs ++ ys) × Nodup (xs ++ ys) = Nodup-middle x xs ys h.1 in
    let o : (y ≢ x) × Out y (xs ++ ys) = Out-middle y x xs ys h.0 in
    ((λ e. o.0 (sym e), r.0), (o.1, r.1))

-- Taking a node out of the second list and putting it at the end of the first.
pub Apart-take :
    (zs : List ℕ) (x : ℕ) (xs ys : List ℕ)
    → Apart zs (xs ++ x ∷ ys)
    → Out x zs × Apart zs (xs ++ ys)
Apart-take [] x xs ys h = (tt, tt)
Apart-take (z ∷ zs) x xs ys h =
    let o : (z ≢ x) × Out z (xs ++ ys) = Out-middle z x xs ys h.0 in
    let r : Out x zs × Apart zs (xs ++ ys) = Apart-take zs x xs ys h.1 in
    ((λ e. o.0 (sym e), r.0), (o.1, r.1))

pub Apart-snoc : (zs ys : List ℕ) (x : ℕ) → Apart zs ys → Out x ys → Apart (zs ++ x ∷ []) ys
Apart-snoc [] ys x h o = (o, tt)
Apart-snoc (z ∷ zs) ys x h o = (h.0, Apart-snoc zs ys x h.1 o)

pub Apart-push : (zs ys : List ℕ) (x : ℕ) → Apart zs ys → Out x zs → Apart zs (x ∷ ys)
Apart-push [] ys x h o = tt
Apart-push (z ∷ zs) ys x h o = ((λ e. o.0 (sym e), h.0), Apart-push zs ys x h.1 o.1)

-- Addresses below a bound are not the bound.
pub Out-bound : (xs : List ℕ) (n : ℕ) → All (λ x. x < n) xs → Out n xs
Out-bound [] n h = tt
Out-bound (x ∷ xs) n h = (λ e. omega (arith, h.0), Out-bound xs n h.1)

pub All-grow : (xs : List ℕ) (n : ℕ) → All (λ x. x < n) xs → All (λ x. x < suc n) xs
All-grow [] n h = tt
All-grow (x ∷ xs) n h = (omega (arith, h.0), All-grow xs n h.1)

pub All-middle :
    (x : ℕ) (xs ys : List ℕ) (n : ℕ)
    → All (λ y. y < n) (xs ++ x ∷ ys)
    → (x < n) × All (λ y. y < n) (xs ++ ys)
All-middle x [] ys n h = h
All-middle x (y ∷ xs) ys n h =
    let r : (x < n) × All (λ z. z < n) (xs ++ ys) = All-middle x xs ys n h.1 in (r.0, (h.0, r.1))
