-- ===== src/Barber/Deadlock.antt =====
-- A defect of SysOpy/lab7/src/zad1/client.c: a client that wakes the barber leaves its global
-- `client` at 0, so before the barber acts it can take the next branch but one and also sit down
-- in the waiting room. After its last shave it is invited again, and nobody comes.
use semestr.Prelude.{
  ℕ, ◌<◌, ◌≡◌, ◌≢◌, refl, List, [], ◌∷◌, ◌==◌, if◌then◌else◌, arith, ap, ◌∙◌, ℕ_discrete,
}
use semestr.Barber.{
  Status, sleep, wakes, sits, sits_first, start, ends, leaves, invites, Shop, Turn, open_shop,
  barber_logic, client_logic,
}
use semestr.Barber.System.{
  System, opened, Step, barber_round, client_round, after_turn, after_barber, Reach, begin, next,
}

-- Any number of steps from a state.
pub data Later (barber : ℕ) (s : System) : System → Type 0 where
  now : Later barber s s
  more : {t u : System} → Later barber s t → Step barber t u → Later barber s u

-- One client process, with pid `p`, that wants one shave.
abbrev pub lone : ℕ → ℕ → ℕ
lone p x = if x == p then 1 else 0

record View : Type 0 where
  status : Status
  waiting : ℕ
  client_pid : ℕ
  queue : List ℕ
  client : ℕ
  shaves : ℕ

abbrev view : Status → ℕ → ℕ → List ℕ → ℕ → ℕ → View
view status waiting client_pid queue client shaves = record {
  status = status;
  waiting = waiting;
  client_pid = client_pid;
  queue = queue;
  client = client;
  shaves = shaves;
}

module _ (limit barber p : ℕ) (real : p ≢ 0) (seats : 0 < limit) where
  -- What a state shows of the shop and of process `p`.
  record At (s : System) (v : View) : Type 0 where
    at_status : s.shop.status ≡ v.status
    at_waiting : s.shop.waiting_clients ≡ v.waiting
    at_limit : s.shop.queue_length ≡ limit
    at_client_pid : s.shop.client_pid ≡ v.client_pid
    at_barber : s.shop.barber_pid ≡ barber
    at_queue : s.shop.queue ≡ v.queue
    at_client : (s.process p).client ≡ v.client
    at_shaves : (s.process p).shaves ≡ v.shaves

  abbrev Alone : System → Type 0
  Alone s = (x : ℕ) → x ≢ p → (s.process x).shaves ≡ 0

  after_turn-Alone : (s : System) (t : Turn) → Alone s → Alone (after_turn s p t)
  after_turn-Alone s t h x ne = ground (arith, h x ne)

  abbrev barber_goes : System → System
  barber_goes s = after_barber s (barber_logic barber s.msg s.shop)

  abbrev client_goes : System → System
  client_goes s = after_turn s p (client_logic p (s.process p).client s.shop)

  falls_asleep :
      (s : System) → At s (view invites 0 0 [] 0 1) → At (barber_goes s) (view sleep 0 0 [] 0 1)
  unfolding barber_logic
  falls_asleep s a = ground arith

  is_woken :
      (s : System) → At s (view sleep 0 0 [] 0 1) → At (client_goes s) (view wakes 0 p [] 0 1)
  unfolding client_logic
  is_woken s a = ground arith

  takes_seat_too :
      (s : System) → At s (view wakes 0 p [] 0 1) → At (client_goes s) (view wakes 1 p (p ∷ []) p 1)
  unfolding client_logic
  takes_seat_too s a = ground arith

  wakes_up :
      (s : System)
      → At s (view wakes 1 p (p ∷ []) p 1)
      → At (barber_goes s) (view sits_first 1 p (p ∷ []) p 1)
  unfolding barber_logic
  wakes_up s a = ground arith

  sits_down :
      (s : System)
      → At s (view sits_first 1 p (p ∷ []) p 1)
      → At (client_goes s) (view start 1 p (p ∷ []) p 1)
  unfolding client_logic
  sits_down s a = ground arith

  cuts :
      (s : System)
      → At s (view start 1 p (p ∷ []) p 1)
      → At (barber_goes s) (view ends 1 p (p ∷ []) p 1)
  unfolding barber_logic
  cuts s a = ground arith

  finishes :
      (s : System)
      → At s (view ends 1 p (p ∷ []) p 1)
      → At (barber_goes s) (view leaves 1 p (p ∷ []) p 1)
  unfolding barber_logic
  finishes s a = ground arith

  goes_home :
      (s : System)
      → At s (view leaves 1 p (p ∷ []) p 1)
      → At (client_goes s) (view invites 1 0 (p ∷ []) 0 0)
  unfolding client_logic
  goes_home s a = ground arith

  is_invited_again :
      (s : System)
      → At s (view invites 1 0 (p ∷ []) 0 0)
      → At (barber_goes s) (view sits 1 p [] 0 0)
  unfolding barber_logic
  is_invited_again s a = ground arith

  opens : At (opened limit barber (lone p)) (view invites 0 0 [] 0 1)
  unfolding open_shop
  opens = ground arith

  -- A reachable state with what it shows.
  record Scene (v : View) : Type 0 where
    state : System
    reach : Reach limit barber (lone p) state
    alone : Alone state
    shows : At state v

  barber_acts : {v w : View} → ((s : System) → At s v → At (barber_goes s) w) → Scene v → Scene w
  barber_acts f c = record {
    state = barber_goes c.state;
    reach = next c.reach barber_round;
    alone = c.alone;
    shows = f c.state c.shows;
  }

  client_acts :
      {v w : View}
      → v.shaves ≡ 1
      → ((s : System) → At s v → At (client_goes s) w)
      → Scene v
      → Scene w
  client_acts wants f c = record {
    state = client_goes c.state;
    reach = next c.reach (client_round p real (omega (arith, c.shows.at_shaves)));
    alone =
        after_turn-Alone c.state (client_logic p (c.state.process p).client c.state.shop) c.alone;
    shows = f c.state c.shows;
  }

  opening : Scene (view invites 0 0 [] 0 1)
  opening = record {
    state = opened limit barber (lone p);
    reach = begin;
    alone = λ x ne. ground arith;
    shows = opens;
  }

  abandoned : Scene (view sits 1 p [] 0 0)
  abandoned = barber_acts is_invited_again (
      client_acts refl goes_home (
        barber_acts finishes (
          barber_acts cuts (
            client_acts refl sits_down (
              barber_acts wakes_up (
                client_acts refl takes_seat_too
                  (client_acts refl is_woken (barber_acts falls_asleep opening))))))))

  Alone-exited :
      (s : System) → Alone s → (s.process p).shaves ≡ 0 → (x : ℕ) → (s.process x).shaves ≡ 0
  Alone-exited s alone gone x = elim (ℕ_discrete x p) [ yes e ↦ rw e gone | no ne ↦ alone x ne ]

  sits-barber_logic : (msg : ℕ) (s : Shop) → s.status ≡ sits → (barber_logic barber msg s).1 ≡ s
  unfolding barber_logic
  sits-barber_logic msg s e = ground arith

  -- With every client gone and the barber waiting for one to sit, nothing changes any more.
  Later-stuck :
      {s t : System}
      → s.shop.status ≡ sits
      → ((x : ℕ) → (s.process x).shaves ≡ 0)
      → Later barber s t
      → (t.shop ≡ s.shop) × ((x : ℕ) → (t.process x).shaves ≡ 0)
  Later-stuck e gone now = (refl, gone)
  Later-stuck e gone (more {t = t} l barber_round) =
      let (same, gone') = Later-stuck e gone l in
      (sits-barber_logic t.msg t.shop (ap (λ (x : Shop). x.status) same ∙ e) ∙ same, gone')
  Later-stuck e gone (more l (client_round pid _ wants)) =
      absurd (wants ((Later-stuck e gone l).1 pid))

-- With a waiting room, a single client that wants a single shave can reach a state in which the
-- barber waits for it to sit down again after it has exited, and no further step of any process
-- changes the shop.
pub double_seat_deadlock :
    (limit barber p : ℕ)
    → p ≢ 0
    → 0 < limit
    → (s : System) × Reach limit barber (lone p) s
      × (s.shop.status ≡ sits)
      × (s.shop.client_pid ≡ p)
      × ((s.process p).shaves ≡ 0)
      × ((t : System) → Later barber s t → t.shop ≡ s.shop)
double_seat_deadlock limit barber p real seats =
    let c = abandoned limit barber p real seats in
    let gone = Alone-exited limit barber p real seats c.state c.alone c.shows.at_shaves in
    (
      c.state,
      c.reach,
      c.shows.at_status,
      c.shows.at_client_pid,
      c.shows.at_shaves,
      λ t l. (Later-stuck limit barber p real seats c.shows.at_status gone l).0,
    )
