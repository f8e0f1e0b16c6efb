-- ===== src/Replay/Received.antt =====
-- What the collectors of logjetd/src/replay.rs have received, whatever fails.
use mathlib.Core.List.{Mem, mem-append_left, mem-append_right, mem-cons_self}
use logjet.Base.{
  ℕ, ◌≡◌, refl, sym, ap, ◌∙◌, subst, List, [], ◌∷◌, ◌++◌, append-nil, append_assoc, Result, ok, err,
  All,
}
use logjet.Base.Exec.{Exec, continue}
use logjet.Error.{ErrorKind}
use logjet.Record.{RecordType}
use logjet.Replay.Collectors.{Connector, post_for_one, post_for, retried, onward}

-- A collector behind a connection: it has received what a successful post sends, what it has received
-- stays, also when a post or a reconnect fails, and a failed post may still have arrived.
pub record IsCollector {C : Type 0} (connector : Connector C)
    (received : C → List (RecordType × List ℕ)) : Type 0 where
  pub arrives :
      (t : RecordType) (p : List ℕ) (c : C)
      → (connector.post_for_inner t p c).0 ≡ ok tt
      → received (connector.post_for_inner t p c).1 ≡ received c ++ ((t, p) ∷ [])
  pub stays :
      (t : RecordType) (p : List ℕ) (c : C)
      → (extra : List (RecordType × List ℕ)) × (received (connector.post_for_inner t p c).1
          ≡ received c ++ extra)
  pub reconnects :
      (c : C)
      → (extra : List (RecordType × List ℕ)) × (received (connector.reconnect c).1
          ≡ received c ++ extra)

module _ {C : Type 0} (received : C → List (RecordType × List ℕ)) where
  abbrev pub HasGrown : C → C → Type 0
  HasGrown c c' = (extra : List (RecordType × List ℕ)) × (received c' ≡ received c ++ extra)

  HasGrown-trans : (a b c : C) → HasGrown a b → HasGrown b c → HasGrown a c
  HasGrown-trans a b c (xs, f) (ys, g) =
      (xs ++ ys, g ∙ ap (λ l. l ++ ys) f ∙ append_assoc (received a) xs ys)

  pub data HaveGrown : List C → List C → Type 0 where
    none_grown : HaveGrown [] []
    one_grown :
        {c d : C} {cs ds : List C} → HasGrown c d → HaveGrown cs ds → HaveGrown (c ∷ cs) (d ∷ ds)

module _ {C : Type 0} (received : C → List (RecordType × List ℕ)) where
  HasGrown-refl : (c : C) → HasGrown received c c
  HasGrown-refl c = ([], sym (append-nil (received c)))

  pub HaveGrown-refl : (cs : List C) → HaveGrown received cs cs
  HaveGrown-refl [] = none_grown
  HaveGrown-refl (c ∷ cs) = one_grown (HasGrown-refl c) (HaveGrown-refl cs)

  pub HaveGrown-trans :
      {as' bs cs : List C}
      → HaveGrown received as' bs
      → HaveGrown received bs cs
      → HaveGrown received as' cs
  HaveGrown-trans none_grown none_grown = none_grown
  HaveGrown-trans (one_grown {c = a} {d = b} h hs) (one_grown {d = c} k ks) =
      one_grown (HasGrown-trans received a b c h k) (HaveGrown-trans hs ks)

  -- Every one of the collectors has received it.
  abbrev pub IsDelivered : RecordType × List ℕ → List C → Type 0
  IsDelivered x cs = All (λ c. Mem x (received c)) cs

  pub IsDelivered-grown :
      (x : RecordType × List ℕ) {cs ds : List C}
      → HaveGrown received cs ds
      → IsDelivered x cs
      → IsDelivered x ds
  IsDelivered-grown x none_grown k = tt
  IsDelivered-grown x (one_grown (extra, e) hs) (k, ks) =
      (subst (Mem x) (sym e) (mem-append_left extra k), IsDelivered-grown x hs ks)

module _ {C : Type 0} (connector : Connector C) (received : C → List (RecordType × List ℕ))
    (law : IsCollector connector received) (t : RecordType) (p : List ℕ) where
  abbrev post : Exec C ErrorKind (Unit {0})
  post = connector.post_for_inner t p

  arrived : (c : C) → (post c).0 ≡ ok tt → Mem (t, p) (received (post c).1)
  arrived c e =
      subst (Mem (t, p)) (sym (law.arrives t p c e)) (mem-append_right (received c) mem-cons_self)

  second-grown :
      (c : C) (mid : Result ErrorKind (Unit {0}) × C)
      → HasGrown received c mid.1
      → HasGrown received c (continue mid.0 (λ u. post) mid.1).1
  second-grown c (ok u, m) h = HasGrown-trans received c m (post m).1 h (law.stays t p m)
  second-grown c (err e, m) h = h

  retried-grown :
      (c : C) (first : Result ErrorKind (Unit {0}) × C)
      → HasGrown received c first.1
      → HasGrown received c (retried connector t p first).1
  retried-grown c (ok u, d) h = h
  retried-grown c (err e, d) h =
      second-grown c (connector.reconnect d)
        (HasGrown-trans received c d (connector.reconnect d).1 h (law.reconnects d))

  second-arrived :
      (mid : Result ErrorKind (Unit {0}) × C)
      → (continue mid.0 (λ u. post) mid.1).0 ≡ ok tt
      → Mem (t, p) (received (continue mid.0 (λ u. post) mid.1).1)
  second-arrived (ok u, m) e = arrived m e
  second-arrived (err kind, m) e = cc

  post_for_one-grown : (c : C) → HasGrown received c (post_for_one connector t p c).1
  unfolding post_for_one
  post_for_one-grown c = retried-grown c (post c) (law.stays t p c)

  post_for_one-arrived :
      (c : C)
      → (post_for_one connector t p c).0 ≡ ok tt
      → Mem (t, p) (received (post_for_one connector t p c).1)
  unfolding post_for_one
  post_for_one-arrived c e = by_first (post c) refl e
    where
      by_first :
          (first : Result ErrorKind (Unit {0}) × C)
          → post c ≡ first
          → (retried connector t p first).0 ≡ ok tt
          → Mem (t, p) (received (retried connector t p first).1)
      by_first (ok u, d) f g =
          subst (λ (o : Result ErrorKind (Unit {0}) × C). Mem (t, p) (received o.1)) f
            (arrived c (ap (λ o. o.0) f))
      by_first (err kind, d) f g = second-arrived (connector.reconnect d) g

  pub post_for-grown : (cs : List C) → HaveGrown received cs (post_for connector t p cs).1
  unfolding post_for
  post_for-grown [] = none_grown
  post_for-grown (c ∷ cs) =
      by_one (post_for-grown cs) (post_for_one connector t p c) (post_for_one-grown c)
    where
      by_one :
          HaveGrown received cs (post_for connector t p cs).1
          → (one : Result ErrorKind (Unit {0}) × C) → HasGrown received c one.1
          → HaveGrown received (c ∷ cs) (onward connector one cs (post_for connector t p cs)).1
      by_one later (ok u, d) h = one_grown h later
      by_one later (err e, d) h = one_grown h (HaveGrown-refl received cs)

  pub post_for-IsDelivered :
      (cs : List C)
      → (post_for connector t p cs).0 ≡ ok tt
      → IsDelivered received (t, p) (post_for connector t p cs).1
  unfolding post_for
  post_for-IsDelivered [] e = tt
  post_for-IsDelivered (c ∷ cs) e =
      by_one (post_for-IsDelivered cs) (post_for_one connector t p c) (post_for_one-arrived c) e
    where
      by_one :
          ((post_for connector t p cs).0 ≡ ok tt
            → IsDelivered received (t, p) (post_for connector t p cs).1)
          → (one : Result ErrorKind (Unit {0}) × C) → (one.0 ≡ ok tt → Mem (t, p) (received one.1))
          → (onward connector one cs (post_for connector t p cs)).0 ≡ ok tt
          → IsDelivered received (t, p) (onward connector one cs (post_for connector t p cs)).1
      by_one later (ok u, d) has f = (has refl, later f)
      by_one later (err kind, d) has f = cc
