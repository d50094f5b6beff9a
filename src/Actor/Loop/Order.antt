-- ===== src/Actor/Loop/Order.antt =====
-- The order in which the loop handles messages and events.
use actorgo.Common.{
  ℕ, suc, ◌+◌, ◌%◌, ◌^◌, ◌<◌, ◌≤◌, length, length-append, false, not, ◌≡◌, refl, sym, ◌∙◌, ap,
  subst, inl, inr, ◌&&◌, true, List, [], ◌∷◌, ◌++◌, arith, Bool-cases,
}
use mathlib.Core.List.{append_assoc, append-nil}
use actorgo.Actor.Events.{EventData}
use actorgo.Actor.Queue.{dec, is_positive}
use actorgo.Actor.Loop.{
  Message, Code, Handled, Actor, Choice, take_mail, take_event, take_timer, take_close,
  take_unlinked, is_stopped, process_mail, process_event, process_timer, serve, loop, exit,
  begin_post, end_post, begin_event, end_event, outcome_of,
}

abbrev pub messages : {V : Type 0} → List (Message V × Handled V) → List (Message V)
messages [] = []
messages ((m, o) ∷ h) = m ∷ messages h

pub messages-append :
    {V : Type 0} (h k : List (Message V × Handled V)) → messages (h ++ k) ≡ messages h ++ messages k
messages-append [] k = refl
messages-append ((m, o) ∷ h) k = ap (λ r. m ∷ r) (messages-append h k)

-- All that has come to an actor: what is handled, and what waits.
abbrev pub taken_messages : {V H : Type 0} → Actor V H → List (Message V)
taken_messages a = messages a.handled ++ a.mail

abbrev pub taken_events : {V H : Type 0} → Actor V H → List EventData
taken_events a = a.fired ++ a.event

module _ {V H : Type 0} (code : Code V H) where
  -- Any steps of the loop, with what other goroutines post and push meanwhile.
  pub data Run (a : Actor V H) : List (Message V) → List EventData → Actor V H → Type 0 where
    start : Run a [] [] a
    looped :
        {ms : List (Message V)} {es : List EventData} {b : Actor V H} (c : Choice) (now count : ℕ)
        → Run a ms es b
        → Run a ms es (loop code c now count b).0
    posted :
        {ms : List (Message V)} {es : List EventData} {b : Actor V H} (m : Message V)
        → Run a ms es b
        → Run a (ms ++ m ∷ []) es (begin_post b m)
    post_counted :
        {ms : List (Message V)} {es : List EventData} {b : Actor V H} (left : ℕ)
        → b.mail_uncounted ≡ suc left
        → Run a ms es b
        → Run a ms es (end_post b left)
    pushed :
        {ms : List (Message V)} {es : List EventData} {b : Actor V H} (e : EventData)
        → Run a ms es b
        → Run a ms (es ++ e ∷ []) (begin_event b e)
    event_counted :
        {ms : List (Message V)} {es : List EventData} {b : Actor V H} (left : ℕ)
        → b.event_uncounted ≡ suc left
        → Run a ms es b
        → Run a ms es (end_event b left)
    exited :
        {ms : List (Message V)} {es : List EventData} {b : Actor V H}
        → Run a ms es b
        → Run a ms es (exit b)

  process_mail-taken :
      (now : ℕ) (a : Actor V H)
      → (taken_messages (process_mail code now a) ≡ taken_messages a)
        × (taken_events (process_mail code now a) ≡ taken_events a)
  process_mail-taken now a = from a.mail refl
    where
      from :
          (q : List (Message V))
          → a.mail ≡ q
          → (taken_messages (process_mail code now a) ≡ taken_messages a)
            × (taken_events (process_mail code now a) ≡ taken_events a)
      from [] e = unfold process_mail in (ground arith, ground arith)
      from (m ∷ rest) e =
          unfold process_mail in
          (
            ground (
              arith,
              messages-append a.handled ((m, outcome_of code a m) ∷ []),
              append_assoc (messages a.handled) (m ∷ []) rest,
            ),
            ground arith,
          )

  process_event-taken :
      (now : ℕ) (a : Actor V H)
      → (taken_messages (process_event code now a) ≡ taken_messages a)
        × (taken_events (process_event code now a) ≡ taken_events a)
  process_event-taken now a = from a.event refl
    where
      from :
          (q : List EventData)
          → a.event ≡ q
          → (taken_messages (process_event code now a) ≡ taken_messages a)
            × (taken_events (process_event code now a) ≡ taken_events a)
      from [] e = unfold process_event in (ground arith, ground arith)
      from (x ∷ rest) e =
          unfold process_event in (ground arith, ground (arith, append_assoc a.fired (x ∷ []) rest))

  loop-taken :
      (c : Choice) (now count : ℕ) (a : Actor V H)
      → (taken_messages (loop code c now count a).0 ≡ taken_messages a)
        × (taken_events (loop code c now count a).0 ≡ taken_events a)
  unfolding loop process_timer
  loop-taken take_mail now count a = ground (arith, process_mail-taken now a)
  loop-taken take_event now count a = ground (arith, process_event-taken now a)
  loop-taken take_timer now count a = ground arith
  loop-taken take_close now count a = ground arith
  loop-taken take_unlinked now count a = ground arith

  Run-taken :
      {a b : Actor V H} {ms : List (Message V)} {es : List EventData}
      → Run a ms es b
      → (taken_messages b ≡ taken_messages a ++ ms) × (taken_events b ≡ taken_events a ++ es)
  unfolding begin_post end_post begin_event end_event exit
  Run-taken {a} start = (sym (append-nil (taken_messages a)), sym (append-nil (taken_events a)))
  Run-taken (looped {ms} {es} {b} c now count r) =
      let t = loop-taken c now count b in let i = Run-taken r in (t.0 ∙ i.0, t.1 ∙ i.1)
  Run-taken {a} (posted {ms} {es} {b} m r) =
      let i = Run-taken r in
      (
        ground (
          arith,
          i.0,
          append_assoc (messages b.handled) b.mail (m ∷ []),
          append_assoc (taken_messages a) ms (m ∷ []),
        ),
        i.1,
      )
  Run-taken {a} (pushed {ms} {es} {b} e r) =
      let i = Run-taken r in
      (
        i.0,
        ground (
          arith,
          i.1,
          append_assoc b.fired b.event (e ∷ []),
          append_assoc (taken_events a) es (e ∷ []),
        ),
      )
  Run-taken (post_counted left e r) = Run-taken r
  Run-taken (event_counted left e r) = Run-taken r
  Run-taken (exited r) = Run-taken r

  -- The counts of a queue: what is counted, and what is in flight, is what waits.
  record IsCountOf (count uncounted waiting : ℕ) : Type 0 where
    narrow : count < 2 ^ 32
    balance : (count + uncounted) % 2 ^ 32 ≡ waiting % 2 ^ 32

  abbrev AreCounts : Actor V H → Type 0
  AreCounts a =
      IsCountOf a.mail_count a.mail_uncounted (length a.mail)
      × IsCountOf a.event_count a.event_uncounted (length a.event)

  count_taken :
      (count uncounted waiting : ℕ)
      → IsCountOf count uncounted (suc waiting)
      → IsCountOf (dec count) uncounted waiting
  count_taken count uncounted waiting k = record {
    narrow = omega (arith, k.narrow);
    balance = omega (arith, k.narrow, k.balance);
  }

  process_mail-AreCounts :
      (now : ℕ) (a : Actor V H) → AreCounts a → AreCounts (process_mail code now a)
  unfolding process_mail
  process_mail-AreCounts now a (mail, event) = from a.mail refl
    where
      from : (q : List (Message V)) → a.mail ≡ q → AreCounts (process_mail code now a)
      from [] e =
          rw e (subst (λ q. IsCountOf a.mail_count a.mail_uncounted (length q)) e mail, event)
      from (m ∷ rest) e = rw e (
        count_taken a.mail_count a.mail_uncounted (length rest)
            (subst (λ q. IsCountOf a.mail_count a.mail_uncounted (length q)) e mail),
        event,
      )

  process_event-AreCounts :
      (now : ℕ) (a : Actor V H) → AreCounts a → AreCounts (process_event code now a)
  unfolding process_event
  process_event-AreCounts now a (mail, event) = from a.event refl
    where
      from : (q : List EventData) → a.event ≡ q → AreCounts (process_event code now a)
      from [] e =
          rw e (mail, subst (λ q. IsCountOf a.event_count a.event_uncounted (length q)) e event)
      from (x ∷ rest) e = rw e (
        mail,
        count_taken a.event_count a.event_uncounted (length rest)
            (subst (λ q. IsCountOf a.event_count a.event_uncounted (length q)) e event),
      )

  serve-AreCounts :
      (c : Choice) (now : ℕ) (a : Actor V H) → AreCounts a → AreCounts (serve code c now a)
  unfolding serve process_timer
  serve-AreCounts take_mail now a k = process_mail-AreCounts now a k
  serve-AreCounts take_event now a k = process_event-AreCounts now a k
  serve-AreCounts take_timer now a k = k
  serve-AreCounts take_close now a k = k
  serve-AreCounts take_unlinked now a k = k

  loop-AreCounts :
      (c : Choice) (now count : ℕ) (a : Actor V H)
      → AreCounts a
      → AreCounts (loop code c now count a).0
  unfolding loop
  loop-AreCounts c now count a k =
      elim (Bool-cases
        (is_stopped a.state && (not (is_positive count) && not (is_positive a.event_count)))) [
          | inl h ↦ rw h k
          | inr h ↦ rw h (serve-AreCounts c now a k)
        ]

  Run-AreCounts :
      {a b : Actor V H} {ms : List (Message V)} {es : List EventData}
      → Run a ms es b
      → AreCounts a
      → AreCounts b
  unfolding begin_post end_post begin_event end_event exit
  Run-AreCounts start k = k
  Run-AreCounts (looped {ms} {es} {b} c now count r) k =
      loop-AreCounts c now count b (Run-AreCounts r k)
  Run-AreCounts (posted {ms} {es} {b} m r) k =
      let (mail, event) = Run-AreCounts r k in
      (
        record {
          narrow = mail.narrow;
          balance = omega (arith, mail.balance, length-append b.mail (m ∷ []));
        },
        event,
      )
  Run-AreCounts (post_counted {ms} {es} {b} left e r) k =
      let (mail, event) = Run-AreCounts r k in
      (record { narrow = omega arith; balance = omega (arith, mail.balance, e) }, event)
  Run-AreCounts (pushed {ms} {es} {b} x r) k =
      let (mail, event) = Run-AreCounts r k in
      (
        mail,
        record {
          narrow = event.narrow;
          balance = omega (arith, event.balance, length-append b.event (x ∷ []));
        },
      )
  Run-AreCounts (event_counted {ms} {es} {b} left e r) k =
      let (mail, event) = Run-AreCounts r k in
      (mail, record { narrow = omega arith; balance = omega (arith, event.balance, e) })
  Run-AreCounts (exited r) k = Run-AreCounts r k

  counted_out :
      (count uncounted waiting : ℕ)
      → IsCountOf count uncounted waiting
      → uncounted < 2 ^ 31
      → waiting < 2 ^ 31
      → is_positive count ≡ false
      → waiting ≤ uncounted
  counted_out count uncounted waiting k u w h = ground (arith, k.narrow, k.balance, u, w, h)

  -- An actor to which nothing has come.
  pub record IsNew (a : Actor V H) : Type 0 where
    pub no_mail : taken_messages a ≡ []
    pub no_event : taken_events a ≡ []
    pub mail_zero : (a.mail_count ≡ 0) × (a.mail_uncounted ≡ 0)
    pub event_zero : (a.event_count ≡ 0) × (a.event_uncounted ≡ 0)

  -- Whatever comes to an actor that starts with nothing, in whichever order the select takes its
  -- channels and the Pushes count: let its loop end on a count of the mailbox read at one moment and a
  -- count of the events read at a later one, with anything between. Then the messages handled by the
  -- first moment, once and in the order in which they came, are all that were posted by then but for
  -- at most as many, the last ones, as there were Pushes in flight, which had not counted; and so for
  -- the events at the second moment. With no Push in flight all have been handled. Fewer than 2^31
  -- messages and events wait, and as few Pushes are in flight.
  pub loop_ends_drained :
      (a b d : Actor V H) (ms ms' : List (Message V)) (es es' : List EventData) (c : Choice)
      (now : ℕ)
      → IsNew a
      → Run a ms es b
      → Run b ms' es' d
      → (length b.mail < 2 ^ 31) × (b.mail_uncounted < 2 ^ 31)
      → (length d.event < 2 ^ 31) × (d.event_uncounted < 2 ^ 31)
      → (loop code c now b.mail_count d).1 ≡ true
      → (messages b.handled ++ b.mail ≡ ms)
        × (d.fired ++ d.event ≡ es ++ es')
        × (length b.mail ≤ b.mail_uncounted)
        × (length d.event ≤ d.event_uncounted)
  loop_ends_drained a b d ms ms' es es' c now new r r' (mail_few, mail_flight)
        (event_few, event_flight) over =
      let i = Run-taken r in
      let k = Run-AreCounts r (new-AreCounts a new) in
      let events = i.1 ∙ ap (λ q. q ++ es) new.no_event in
      let (mail_out, event_out) = loop_over c now b.mail_count d over in
      (
        i.0 ∙ ap (λ q. q ++ ms) new.no_mail,
        (Run-taken r').1 ∙ ap (λ q. q ++ es') events,
        counted_out b.mail_count b.mail_uncounted (length b.mail) k.0 mail_flight mail_few mail_out,
        counted_out d.event_count d.event_uncounted (length d.event) (Run-AreCounts r' k).1
            event_flight event_few event_out,
      )
    where
      new-AreCounts : (a : Actor V H) → IsNew a → AreCounts a
      new-AreCounts a new = (
        record {
          narrow = omega (arith, new.mail_zero);
          balance = omega (
            arith,
            new.mail_zero,
            ap length new.no_mail,
            length-append (messages a.handled) a.mail,
          );
        },
        record {
          narrow = omega (arith, new.event_zero);
          balance =
              omega (arith, new.event_zero, ap length new.no_event, length-append a.fired a.event);
        },
      )

      loop_over :
          (c : Choice) (now count : ℕ) (d : Actor V H)
          → (loop code c now count d).1 ≡ true
          → (is_positive count ≡ false) × (is_positive d.event_count ≡ false)
      loop_over c now count d over = unfold loop in (ground (arith, over), ground (arith, over))
