-- ===== src/Core/Ipc/Interleaving.antt =====
-- Threads that use the mailboxes of crates/core/src/ipc.rs at once: a step is one locked section.
use mathlib.Core.List.{append_assoc, append-nil}
use tordex.Prelude.{
  ℕ, ◌≡◌, refl, sym, ap, ◌∙◌, true, false, List, [], ◌∷◌, ◌++◌, nat_eq, ◌==◌, beq_refl, or_default,
  if◌then◌else◌, keep, In, keep-append, Bool-cases, inl, inr, arith, All, All-append, All-map,
}
use tordex.Prelude.Map.{
  get, or_default-get-insert, contains_key, get-remove, contains_key-insert, contains_key-remove,
}
use tordex.Core.Ipc.{
  Message, InMemoryIpc, new_ipc, mailbox, knows_target, deliver, receive, add_endpoint, add_mailbox,
  unregister_endpoint,
}

-- The shared maps, the threads between two locks, and what has happened so far, oldest first.
pub record World : Type 0 where
  pub ipc : InMemoryIpc
  -- Messages whose target was found and that are not yet in a mailbox.
  pub sending : List Message
  -- Messages in the order in which they were put into mailboxes.
  pub delivered : List Message
  -- The answers of `receive`, each with its endpoint.
  pub received : List (ℕ × List Message)
  -- Identifiers that were registered.
  pub registered : List ℕ

abbrev pub start : World
start = record { ipc = new_ipc; sending = []; delivered = []; received = []; registered = [] }

pub data Step (w : World) : World → Type 0 where
  checks :
      (m : Message) → knows_target w.ipc m ≡ true → Step w (record w { sending = m ∷ w.sending })
  refuses : (m : Message) → knows_target w.ipc m ≡ false → Step w w
  delivers :
      (m : Message) (before after : List Message)
      → w.sending ≡ before ++ m ∷ after
      → Step w (record w {
        ipc = deliver w.ipc m;
        sending = before ++ after;
        delivered = w.delivered ++ m ∷ [];
      })
  receives :
      (e : ℕ)
      → Step w (record w {
        ipc = (receive w.ipc e).1;
        received = w.received ++ (e, (receive w.ipc e).0) ∷ [];
      })
  adds_endpoint :
      (id : ℕ) → Step w (record w { ipc = add_endpoint w.ipc id; registered = id ∷ w.registered })
  adds_mailbox : (id : ℕ) → Step w (record w { ipc = add_mailbox w.ipc id })
  unregisters : (id : ℕ) → Step w (record w { ipc = (unregister_endpoint w.ipc id).1 })

pub data Reach (w : World) : World → Type 0 where
  here : Reach w w
  next : {u v : World} → Reach w u → Step u v → Reach w v

-- All that an endpoint has received, in order.
pub received_at : ℕ → List (ℕ × List Message) → List Message
received_at e [] = []
received_at e ((j, ms) ∷ rest) = if j == e then ms ++ received_at e rest else received_at e rest

received_at-append :
    (e : ℕ) (xs ys : List (ℕ × List Message))
    → received_at e (xs ++ ys) ≡ received_at e xs ++ received_at e ys
unfolding received_at
received_at-append e [] ys = refl
received_at-append e ((j, ms) ∷ xs) ys = elim (Bool-cases (j == e)) [
  | inl mine ↦ rw mine (ap (λ l. ms ++ l) (received_at-append e xs ys) ∙ sym (append_assoc ms _ _))
  | inr other ↦ rw other (received_at-append e xs ys)
]

mailbox-deliver :
    (ipc : InMemoryIpc) (m : Message) (e : ℕ)
    → mailbox (deliver ipc m) e ≡ (if m.target == e then mailbox ipc e ++ m ∷ [] else mailbox ipc e)
unfolding mailbox deliver
mailbox-deliver ipc m e =
    or_default-get-insert ipc.mailboxes m.target e _ ∙ elim (Bool-cases (m.target == e)) [
      | inl mine ↦ let is : m.target ≡ e = (nat_eq.test_iff m.target e).0 mine in rw (mine, is)
      | inr other ↦ rw other
    ]

mailbox-receive :
    (ipc : InMemoryIpc) (j e : ℕ)
    → mailbox (receive ipc j).1 e ≡ (if j == e then [] else mailbox ipc e)
unfolding mailbox receive
mailbox-receive ipc j e =
    ap or_default (get-remove ipc.mailboxes j e)
    ∙ (elim (Bool-cases (j == e)) [ inl mine ↦ rw mine | inr other ↦ rw other ])

mailbox-add_mailbox : (ipc : InMemoryIpc) (j e : ℕ) → mailbox (add_mailbox ipc j) e ≡ mailbox ipc e
unfolding mailbox add_mailbox
mailbox-add_mailbox ipc j e =
    or_default-get-insert ipc.mailboxes j e _ ∙ elim (Bool-cases (j == e)) [
      | inl mine ↦ let is : j ≡ e = (nat_eq.test_iff j e).0 mine in rw (mine, is)
      | inr other ↦ rw other
    ]

-- Every endpoint has received, or will find in its mailbox, what was delivered to it, in order.
abbrev pub Fifo : World → Type 0
Fifo w =
    (e : ℕ) → received_at e w.received ++ mailbox w.ipc e ≡ keep (λ m. m.target == e) w.delivered

receive-mailbox : (ipc : InMemoryIpc) (e : ℕ) → (receive ipc e).0 ≡ mailbox ipc e
unfolding receive
receive-mailbox ipc e = refl

mailbox-add_endpoint :
    (ipc : InMemoryIpc) (j e : ℕ) → mailbox (add_endpoint ipc j) e ≡ mailbox ipc e
unfolding mailbox add_endpoint
mailbox-add_endpoint ipc j e = refl

mailbox-unregister_endpoint :
    (ipc : InMemoryIpc) (j e : ℕ) → mailbox (unregister_endpoint ipc j).1 e ≡ mailbox ipc e
unfolding mailbox unregister_endpoint
mailbox-unregister_endpoint ipc j e = refl

receive-Fifo :
    (ipc : InMemoryIpc) (old : List (ℕ × List Message)) (j e : ℕ)
    → received_at e (old ++ (j, (receive ipc j).0) ∷ []) ++ mailbox (receive ipc j).1 e
      ≡ received_at e old ++ mailbox ipc e
unfolding received_at
receive-Fifo ipc old j e =
    rw (mailbox-receive ipc j e, received_at-append e old ((j, (receive ipc j).0) ∷ []))
      (elim (Bool-cases (j == e)) [
        | inl mine ↦
            let is : j ≡ e = (nat_eq.test_iff j e).0 mine in
            rw (mine, append-nil, append-nil, receive-mailbox ipc j, is)
        | inr other ↦ rw (other, append-nil)
      ])

Step-Fifo : {w v : World} → Step w v → Fifo w → Fifo v
Step-Fifo (checks m known) h = λ e. h e
Step-Fifo (refuses m unknown) h = λ e. h e
Step-Fifo {w} (delivers m before after split) h = λ e.
    rw (mailbox-deliver w.ipc m e, keep-append (λ x. x.target == e) w.delivered (m ∷ []))
      (elim (Bool-cases (m.target == e)) [
        | inl mine ↦ rw mine (
            sym (append_assoc (received_at e w.received) (mailbox w.ipc e) (m ∷ []))
            ∙ ap (λ l. l ++ m ∷ []) (h e))
        | inr other ↦ rw (other, append-nil) (h e)
      ])
Step-Fifo {w} (receives j) h = λ e. receive-Fifo w.ipc w.received j e ∙ h e
Step-Fifo {w} (adds_endpoint id) h = λ e. rw (mailbox-add_endpoint w.ipc id e) (h e)
Step-Fifo {w} (adds_mailbox id) h = λ e. rw (mailbox-add_mailbox w.ipc id e) (h e)
Step-Fifo {w} (unregisters id) h = λ e. rw (mailbox-unregister_endpoint w.ipc id e) (h e)

Reach-Fifo_from : {w v : World} → Fifo w → Reach w v → Fifo v
Reach-Fifo_from h here = h
Reach-Fifo_from h (next r s) = Step-Fifo s (Reach-Fifo_from h r)

-- In every interleaving of sends, receives, registrations and unregistrations on new mailboxes,
-- and for every endpoint: what its receives have returned so far, in order, and then what waits in
-- its mailbox, are together exactly the messages that sends have delivered to it, in the order of
-- their delivery. So none is lost, doubled, reordered or handed to another endpoint.
pub Reach-Fifo : {v : World} → Reach start v → Fifo v
unfolding received_at mailbox new_ipc get
Reach-Fifo r = Reach-Fifo_from (λ e. refl) r

-- Every endpoint in the map was registered, and so was the target of every message on its way or
-- delivered.
pub record Registered (w : World) : Type 0 where
  pub known : (id : ℕ) → contains_key w.ipc.endpoints id ≡ true → In id w.registered
  pub on_the_way : All (λ m. In m.target w.registered) w.sending
  pub arrived : All (λ m. In m.target w.registered) w.delivered

All-split :
    {A : Type 0} (P : A → Type 0) (x : A) (before after : List A)
    → All P (before ++ x ∷ after)
    → P x × All P (before ++ after)
All-split P x [] after h = h
All-split P x (y ∷ before) after h = let r = All-split P x before after h.1 in (r.0, (h.0, r.1))

Step-Registered : {w v : World} → Step w v → Registered w → Registered v
unfolding knows_target deliver receive add_endpoint add_mailbox unregister_endpoint
Step-Registered (checks m there) h = record {
  known = h.known;
  on_the_way = (h.known m.target there, h.on_the_way);
  arrived = h.arrived;
}
Step-Registered (refuses m unknown) h = h
Step-Registered {w} (delivers m before after split) h =
    let r = All-split (λ x. In x.target w.registered) m before after (rw split at h.on_the_way) in
    record {
      known = h.known;
      on_the_way = r.1;
      arrived = All-append _ w.delivered (m ∷ []) h.arrived (r.0, tt);
    }
Step-Registered (receives j) h = record {
  known = h.known;
  on_the_way = h.on_the_way;
  arrived = h.arrived;
}
Step-Registered {w} (adds_endpoint id) h = record {
  known = λ k e. elim (Bool-cases (id == k)) [
    | inl same ↦ inl ((nat_eq.test_iff id k).0 same)
    | inr other ↦ inr (h.known k (ground (arith, contains_key-insert w.ipc.endpoints id k true)))
  ];
  on_the_way = All-map _ _ w.sending (λ m i. inr i) h.on_the_way;
  arrived = All-map _ _ w.delivered (λ m i. inr i) h.arrived;
}
Step-Registered (adds_mailbox id) h = record {
  known = h.known;
  on_the_way = h.on_the_way;
  arrived = h.arrived;
}
Step-Registered {w} (unregisters id) h = record {
  known = λ k e. h.known k (ground (arith, contains_key-remove w.ipc.endpoints id k));
  on_the_way = h.on_the_way;
  arrived = h.arrived;
}

Reach-Registered_from : {w v : World} → Registered w → Reach w v → Registered v
Reach-Registered_from h here = h
Reach-Registered_from h (next r s) = Step-Registered s (Reach-Registered_from h r)

-- In every interleaving on new mailboxes, a message is on its way or delivered only if its target
-- was registered at some time before, and the map of endpoints names only registered ones.
pub Reach-Registered : {v : World} → Reach start v → Registered v
unfolding new_ipc contains_key
Reach-Registered r =
    Reach-Registered_from (record { known = λ id e. absurd (cc); on_the_way = tt; arrived = tt }) r

Reach-trans : {u v w : World} → Reach u v → Reach v w → Reach u w
Reach-trans r here = r
Reach-trans r (next q s) = next (Reach-trans r q) s

-- The sends under way can end one after the other.
send_all :
    (ms : List Message) (w : World)
    → w.sending ≡ ms
    → (v : World) × Reach w v × (v.sending ≡ []) × (v.delivered ≡ w.delivered ++ ms)
send_all [] w e = (w, here, e, sym (append-nil w.delivered))
send_all (m ∷ ms) w e =
    let first = next here (delivers m [] ms e) in
    let rest = send_all ms _ refl in
    (rest.0, Reach-trans first rest.1, rest.2, rest.3 ∙ append_assoc w.delivered (m ∷ []) ms)

-- From every world that is reachable from new mailboxes, and for every endpoint, the threads can go
-- on to a world in which no send is under way, the endpoint's mailbox is empty, and the endpoint has
-- received all that had been delivered to it or was on its way to it, in that order.
pub Reach-drained :
    {w : World} (e : ℕ)
    → Reach start w
    → (v : World) × Reach w v
      × (v.sending ≡ [])
      × (mailbox v.ipc e ≡ [])
      × (received_at e v.received ≡ keep (λ m. m.target == e) (w.delivered ++ w.sending))
Reach-drained {w} e r =
    let sent = send_all w.sending w refl in
    let u = sent.0 in
    let toward = next sent.1 (receives e) in
    let emptied = mailbox-receive u.ipc e e ∙ rw (beq_refl e) refl in
    let all = Reach-Fifo (Reach-trans r toward) e in
    (
      _,
      toward,
      sent.2,
      emptied,
      sym (append-nil _) ∙ (rw emptied at all) ∙ ap (keep (λ m. m.target == e)) sent.3,
    )
