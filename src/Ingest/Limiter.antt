-- ===== src/Ingest/Limiter.antt =====
-- `ConnectionLimiter` and `ConnectionPermit` of logjetd/src/daemon.rs. The threads share one atomic
-- count; a client's thread is a phase, and one turn of it is one access to the count.
use logjet.Base.{
  ℕ, ◌+◌, ◌-◌, ◌%◌, ◌^◌, ◌≤◌, ◌<◌, ◌≡◌, refl, sym, subst, ◌∙◌, List, [], ◌∷◌, ◌++◌, All, All-append,
  if◌then◌else◌, ltb, leb, ◌==◌, ltb→lt, ltb→le, Bool-cases, ap₂, inl, inr, arith,
}

pub record ConnectionLimiter : Type 0 where
  pub max_clients : ℕ
  pub active_clients : ℕ

unfoldable pub new : ℕ → ConnectionLimiter
new max_clients = record { max_clients = max_clients; active_clients = 0 }

-- Before the load, between the load and the exchange, with the permit, and after the return.
pub data Phase : Type 0 where
  arrived : Phase
  loaded : ℕ → Phase
  holding gone : Phase

-- `load` and the test of the limit.
unfoldable pub load : ConnectionLimiter → Phase
load s = if leb s.max_clients s.active_clients then gone else loaded s.active_clients

-- `compare_exchange(current, current + 1)`; when it fails the loop starts again.
unfoldable pub exchange : ℕ → ConnectionLimiter → Phase × ConnectionLimiter
exchange current s =
    if s.active_clients == current
    then (holding, record s { active_clients = current + 1 })
    else (arrived, s)

-- `fetch_sub` of the permit's `drop` wraps around.
unfoldable pub release : ConnectionLimiter → ConnectionLimiter
release s = record s { active_clients = (s.active_clients + (2 ^ 64 - 1)) % 2 ^ 64 }

unfoldable pub turn : Phase → ConnectionLimiter → Phase × ConnectionLimiter
turn arrived s = (load s, s)
turn (loaded current) s = exchange current s
turn holding s = (gone, release s)
turn gone s = (gone, s)

pub record Daemon : Type 0 where
  pub limiter : ConnectionLimiter
  pub clients : List Phase

abbrev moved : List Phase → List Phase → Phase × ConnectionLimiter → Daemon
moved before after t = record { limiter = t.1; clients = before ++ (t.0 ∷ after) }

-- A client connects, or any one client takes its turn.
pub data Step : Daemon → Daemon → Type 0 where
  connect : (d : Daemon) → Step d (record d { clients = arrived ∷ d.clients })
  take_turn :
      (s : ConnectionLimiter) (before : List Phase) (p : Phase) (after : List Phase)
      → Step
          (record { limiter = s; clients = before ++ (p ∷ after) })
          (moved before after (turn p s))

pub data Reach (d : Daemon) : Daemon → Type 0 where
  here : Reach d d
  next : {e f : Daemon} → Reach d e → Step e f → Reach d f

abbrev held : Phase → ℕ
held arrived = 0
held (loaded n) = 0
held holding = 1
held gone = 0

abbrev pub holders : List Phase → ℕ
holders [] = 0
holders (p ∷ ps) = held p + holders ps

-- What a client has loaded was below the limit.
abbrev IsBelow : ℕ → Phase → Type 0
IsBelow limit arrived = Unit
IsBelow limit (loaded n) = n < limit
IsBelow limit holding = Unit
IsBelow limit gone = Unit

abbrev pub IsCounted : Daemon → Type 0
IsCounted d =
    (d.limiter.active_clients ≡ holders d.clients)
    × (holders d.clients ≤ d.limiter.max_clients)
    × All (IsBelow d.limiter.max_clients) d.clients

holders-append : (ps qs : List Phase) → holders (ps ++ qs) ≡ holders ps + holders qs
holders-append [] qs = omega arith
holders-append (p ∷ ps) qs = omega (arith, holders-append ps qs)

All-split :
    (limit : ℕ) (ps qs : List Phase)
    → All (IsBelow limit) (ps ++ qs)
    → All (IsBelow limit) ps × All (IsBelow limit) qs
All-split limit [] qs h = (tt, h)
All-split limit (p ∷ ps) qs h = let r = All-split limit ps qs h.1 in ((h.0, r.0), r.1)

-- One turn of a client, seen from the count alone, where `others` is what the others hold.
turn-count :
    (p : Phase) (s : ConnectionLimiter) (others : ℕ)
    → s.max_clients < 2 ^ 64
    → s.active_clients ≡ others + held p
    → others + held p ≤ s.max_clients
    → IsBelow s.max_clients p
    → ((turn p s).1.active_clients ≡ others + held (turn p s).0)
      × (others + held (turn p s).0 ≤ s.max_clients)
      × IsBelow s.max_clients (turn p s).0
      × ((turn p s).1.max_clients ≡ s.max_clients)
unfolding turn load exchange release
turn-count arrived s others wide counted fits below = ground arith
turn-count (loaded n) s others wide counted fits below = ground arith
turn-count holding s others wide counted fits below = ground arith
turn-count gone s others wide counted fits below = ground arith

turn-IsCounted :
    (s : ConnectionLimiter) (before : List Phase) (p : Phase) (after : List Phase)
    → s.max_clients < 2 ^ 64
    → IsCounted (record { limiter = s; clients = before ++ (p ∷ after) })
    → IsCounted (moved before after (turn p s)) × ((turn p s).1.max_clients ≡ s.max_clients)
turn-IsCounted s before p after wide h =
    let all = All-split s.max_clients before (p ∷ after) h.2 in
    let sum = holders-append before (p ∷ after) in
    let sum' = holders-append before ((turn p s).0 ∷ after) in
    let one =
      turn-count p s (holders before + holders after) wide (omega (arith, h.0, sum))
        (omega (arith, h.1, sum)) all.1.0 in
    (
      (
        omega (arith, one.0, sum'),
        omega (arith, one.1, one.3, sum'),
        subst (λ limit. All (IsBelow limit) (before ++ ((turn p s).0 ∷ after))) (sym one.3)
            (All-append (IsBelow s.max_clients) before ((turn p s).0 ∷ after) all.0
              (one.2, all.1.1)),
      ),
      one.3,
    )

Step-IsCounted :
    {d e : Daemon}
    → Step d e
    → d.limiter.max_clients < 2 ^ 64
    → IsCounted d
    → IsCounted e × (e.limiter.max_clients ≡ d.limiter.max_clients)
Step-IsCounted (connect d) wide h = ((omega (arith, h.0), omega (arith, h.1), (tt, h.2)), refl)
Step-IsCounted (take_turn s before p after) wide h = turn-IsCounted s before p after wide h

-- The cap on clients holds under every interleaving: from a daemon that has just started with a cap
-- below 2^64, whatever order the clients connect and access the count in, the count is the number of
-- clients that hold a permit, at most the cap of clients hold one, and what a client has loaded and
-- not yet exchanged was below the cap, which itself has not changed.
pub Reach-IsCounted :
    (max_clients : ℕ) {d : Daemon}
    → max_clients < 2 ^ 64
    → Reach (record { limiter = new max_clients; clients = [] }) d
    → IsCounted d × (d.limiter.max_clients ≡ max_clients)
unfolding new
Reach-IsCounted max_clients wide here = ((refl, omega arith, tt), refl)
Reach-IsCounted max_clients wide (next r st) =
    let h = Reach-IsCounted max_clients wide r in
    let later = Step-IsCounted st (omega (arith, h.1)) h.0 in (later.0, later.1 ∙ h.1)

load-free :
    (s : ConnectionLimiter) → s.active_clients < s.max_clients → load s ≡ loaded s.active_clients
unfolding load
load-free s h = ground arith

exchange-free :
    (s : ConnectionLimiter)
    → exchange s.active_clients s ≡ (holding, record s { active_clients = s.active_clients + 1 })
unfolding exchange
exchange-free s = ground arith

load-full : (s : ConnectionLimiter) → s.max_clients ≤ s.active_clients → load s ≡ gone
unfolding load
load-full s h = ground arith

abbrev pub counting : ℕ → ℕ → ConnectionLimiter
counting cap count = record { max_clients = cap; active_clients = count }

acquire :
    (cap count : ℕ)
    → turn (turn arrived (counting cap count)).0 (counting cap count)
      ≡ (if ltb count cap then (holding, counting cap (count + 1)) else (gone, counting cap count))
unfolding turn
acquire cap count = elim (Bool-cases (ltb count cap)) [
  | inl lt ↦
      rw (
        lt,
        load-free (counting cap count) (ltb→lt count cap lt),
        exchange-free (counting cap count),
      )
  | inr ge ↦ rw (ge, load-full (counting cap count) (ltb→le count cap ge))
]

-- No permit leaks and none is withheld: in every state that a daemon started with a cap below 2^64
-- reaches, a client that has connected and takes its next two turns in a row has a permit, with the
-- count raised by one, when fewer clients than the cap hold one, and is refused, with the count left
-- alone, when the cap of permits is held.
pub Reach-acquire :
    (max_clients : ℕ) (d : Daemon)
    → max_clients < 2 ^ 64
    → Reach (record { limiter = new max_clients; clients = [] }) d
    → turn (turn arrived d.limiter).0 d.limiter ≡ (
        if ltb (holders d.clients) max_clients
        then (holding, counting max_clients (holders d.clients + 1))
        else (gone, counting max_clients (holders d.clients)))
Reach-acquire max_clients d wide r =
    let h = Reach-IsCounted max_clients wide r in
    subst
      (λ s. turn (turn arrived s).0 s ≡ (
        if ltb (holders d.clients) max_clients
        then (holding, counting max_clients (holders d.clients + 1))
        else (gone, counting max_clients (holders d.clients))))
      (sym (ap₂ counting h.1 h.0.0)) (acquire max_clients (holders d.clients))
