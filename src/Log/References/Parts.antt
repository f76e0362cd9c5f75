-- ===== src/Log/References/Parts.antt =====
-- The release of references that lie under younger ones, some of which may be NULL.
use p.Common.{subst, sym, suc, [], ℕ, ◌≤◌, ◌≡◌, refl, List, ◌∷◌, Option, none, some, arith}
use p.Log.References.{xrelease, release_parts, ◌>>=◌, Ledger, Own, follow, drop}
use p.Log.References.Rules.{held, Within, Post, release-Post, drop-top, drop-under}

-- References on top of others, the newest first; some may be NULL.
abbrev pub stack : List (Option ℕ) → List ℕ → List ℕ
stack [] o = o
stack (r ∷ rs) o = held r (stack rs o)

abbrev pub From : ℕ → Option ℕ → Type 0
From n none = Unit
From n (some h) = n ≤ h

abbrev AllFrom : ℕ → List (Option ℕ) → Type 0
AllFrom n [] = Unit
AllFrom n (r ∷ rs) = From n r × AllFrom n rs

drop-stack :
    (h : ℕ) (rs : List (Option ℕ)) (o : List ℕ)
    → AllFrom (suc h) rs
    → drop h (stack rs (h ∷ o)) ≡ some (stack rs o)
drop-stack h [] o a = drop-top h o
drop-stack h (none ∷ rs) o a = drop-stack h rs o a.1
drop-stack h (some k ∷ rs) o a =
    drop-under h k (stack rs (h ∷ o)) (stack rs o) a.0 (drop-stack h rs o a.1)

Within-From : (n m k : ℕ) (r : Option ℕ) → Within n r m → k ≤ n → From k r
Within-From n m k none w le = tt
Within-From n m k (some h) w le = omega arith

Within-≤ : (n m : ℕ) (r : Option ℕ) → Within n r m → n ≤ m
Within-≤ n m none w = w
Within-≤ n m (some h) w = omega arith

AllFrom-weaken : (n k : ℕ) (rs : List (Option ℕ)) → AllFrom n rs → k ≤ n → AllFrom k rs
AllFrom-weaken n k [] a le = tt
AllFrom-weaken n k (none ∷ rs) a le = (tt, AllFrom-weaken n k rs a.1 le)
AllFrom-weaken n k (some h ∷ rs) a le = (omega arith, AllFrom-weaken n k rs a.1 le)

push-AllFrom :
    (n m : ℕ) (r : Option ℕ) (rs : List (Option ℕ))
    → Within n r m
    → AllFrom m rs
    → AllFrom n (r ∷ rs)
push-AllFrom n m r rs w a =
    (Within-From n m n r w (omega arith), AllFrom-weaken m n rs a (Within-≤ n m r w))

-- A reference that may be NULL is released under younger ones.
xrelease-Post :
    {B : Type 0} (Q : B → Ledger → Type 0) (n m : ℕ) (r : Option ℕ) (rs : List (Option ℕ))
    (o : List ℕ) (l : Ledger) (f : Own B)
    → l.owned ≡ stack rs (held r o)
    → Within n r m
    → AllFrom m rs
    → Post Q (f (record l { owned = stack rs o }))
    → Post Q (follow (xrelease r l) (λ _. f))
xrelease-Post Q n m none rs o l f e w a k =
    subst (λ ks. Post Q (f (record l { owned = ks }))) (sym e) k
xrelease-Post Q n m (some h) rs o l f e w a k =
    release-Post Q h (stack rs (h ∷ o)) (stack rs o) l (λ _. f) e
      (drop-stack h rs o (AllFrom-weaken m (suc h) rs a w.1)) k

-- The results of four calls in a row
pub record Parts (n : ℕ) (a b c d : Option ℕ) (m : ℕ) : Type 0 where
  pub m1 : ℕ
  pub m2 : ℕ
  pub m3 : ℕ
  pub wa : Within n a m1
  pub wb : Within m1 b m2
  pub wc : Within m2 c m3
  pub wd : Within m3 d m

pub Parts-≤ : (n : ℕ) (a b c d : Option ℕ) (m : ℕ) → Parts n a b c d m → n ≤ m
Parts-≤ n a b c d m p =
    let le1 = Within-≤ n p.m1 a p.wa in
    let le2 = Within-≤ p.m1 p.m2 b p.wb in
    let le3 = Within-≤ p.m2 p.m3 c p.wc in let le4 = Within-≤ p.m3 m d p.wd in omega arith

pub release_parts-Post :
    {B : Type 0} (Q : B → Ledger → Type 0) (n m : ℕ) (a b c d list tuple : Option ℕ) (o : List ℕ)
    (l : Ledger) (f : Own B)
    → l.owned ≡ held tuple (held list (held d (held c (held b (held a o)))))
    → Parts n a b c d m
    → From m list
    → From m tuple
    → Post Q (f (record l { owned = held tuple (held list o) }))
    → Post Q (release_parts a b c d f l)
release_parts-Post Q n m a b c d list tuple o l f e p fl ft k =
    let a3 = push-AllFrom p.m3 m d (tuple ∷ list ∷ []) p.wd (ft, (fl, tt)) in
    let a2 = push-AllFrom p.m2 p.m3 c (d ∷ tuple ∷ list ∷ []) p.wc a3 in
    let a1 = push-AllFrom p.m1 p.m2 b (c ∷ d ∷ tuple ∷ list ∷ []) p.wb a2 in
    xrelease-Post Q n p.m1 a (tuple ∷ list ∷ d ∷ c ∷ b ∷ []) o l
      (xrelease b >>= λ _. xrelease c >>= λ _. xrelease d >>= λ _. f) e p.wa
      (a1.1.1.1.0, (a1.1.1.1.1.0, (a1.1.1.0, (a1.1.0, (a1.0, tt)))))
      (xrelease-Post Q p.m1 p.m2 b (tuple ∷ list ∷ d ∷ c ∷ []) o _
        (xrelease c >>= λ _. xrelease d >>= λ _. f) refl p.wb
        (a2.1.1.0, (a2.1.1.1.0, (a2.1.0, (a2.0, tt))))
        (xrelease-Post Q p.m2 p.m3 c (tuple ∷ list ∷ d ∷ []) o _ (xrelease d >>= λ _. f) refl p.wc
          (a3.1.0, (a3.1.1.0, (a3.0, tt)))
          (xrelease-Post Q p.m3 m d (tuple ∷ list ∷ []) o _ f refl p.wd (ft, (fl, tt)) k)))
