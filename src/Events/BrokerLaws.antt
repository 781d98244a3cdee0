-- ===== src/Events/BrokerLaws.antt =====
-- What `publish` promises: an event counts once, and a critical event is kept.
use mcp_software_factory.Prelude.{
  ℕ, ◌≡◌, refl, sym, ap, ◌∙◌, subst, ltb, ◌≤◌, inl, inr, Bool, true, false, not, ◌&&◌, ◌==◌, nat_eq,
  string_eq, eq_iff, List, [], ◌∷◌, ◌++◌, length, contains, contains-cons_iff, arith, Bool-cases,
  String,
}
use mcp_software_factory.Events.Types.{Event, is_critical, event_branch_id}
use mcp_software_factory.Events.Queue.{remove_removable, make_room, drops, enqueue}
use mcp_software_factory.Events.QueueLaws.{criticals, all_critical, enqueue_keeps_criticals}
use mcp_software_factory.Events.Broker.{Stream, BrokerConfig, Broker, update, publish_to, publish}

publish_to_twice :
    (c : BrokerConfig) (e : Event) (s : Stream)
    → contains e.sequence s.seen_sequences ≡ true
    → publish_to c e s ≡ s
unfolding publish_to
publish_to_twice c e s h = rw h

publish_to_sees :
    (c : BrokerConfig) (e : Event) (s : Stream)
    → contains e.sequence (publish_to c e s).seen_sequences ≡ true
unfolding publish_to
publish_to_sees c e s = ground (arith, contains-cons_iff e.sequence e.sequence s.seen_sequences)

same_key : (t r : String) → (t == t && r == r) ≡ true
same_key t r = ground (arith, eq_iff t t, eq_iff r r)

update_at : (b : Broker) (t r : String) (s : Stream) → update b t r s t r ≡ s
update_at b t r s = rw (same_key t r)

update_again :
    (b : Broker) (t r : String) (s : Stream) (x y : String)
    → update (update b t r s) t r s x y ≡ update b t r s x y
update_again b t r s x y = ground arith

-- The stream to which an event is published.
abbrev pub stream_of : Broker → Event → Stream
stream_of b e = b e.thread_id (event_branch_id e)

-- The store is asked, and refuses the event.
abbrev pub is_refused : BrokerConfig → Bool → Bool → Bool
is_refused c known appended = c.has_store && not known && not appended

publish_refused :
    (c : BrokerConfig) (known appended : Bool) (e : Event) (b : Broker)
    → is_refused c known appended ≡ true
    → publish c known appended e b ≡ b
unfolding publish
publish_refused c known appended e b h = rw h

publish_accepted :
    (c : BrokerConfig) (known appended : Bool) (e : Event) (b : Broker)
    → is_refused c known appended ≡ false
    → publish c known appended e b
      ≡ update b e.thread_id (event_branch_id e) (publish_to c e (stream_of b e))
unfolding publish
publish_accepted c known appended e b h = rw h

publish_again :
    (c : BrokerConfig) (e : Event) (b : Broker) (x y : String)
    → let t = e.thread_id in
      let r = event_branch_id e in
      let b' = update b t r (publish_to c e (stream_of b e)) in
      update b' t r (publish_to c e (b' t r)) x y ≡ b' x y
publish_again c e b x y =
    let t = e.thread_id in
    let r = event_branch_id e in
    let s = publish_to c e (stream_of b e) in
    ap (λ (z : Stream). update (update b t r s) t r z x y)
      (ap (publish_to c e) (update_at b t r s)
        ∙ publish_to_twice c e s (publish_to_sees c e (stream_of b e)))
    ∙ update_again b t r s x y

-- Publishing an event again, after the store did not refuse it, changes no stream, whatever the
-- store answers then.
pub publish_is_idempotent :
    (c : BrokerConfig) (known known' appended appended' : Bool) (e : Event) (b : Broker)
    → is_refused c known appended ≡ false
    → (thread branch : String)
    → publish c known' appended' e (publish c known appended e b) thread branch
      ≡ publish c known appended e b thread branch
publish_is_idempotent c known known' appended appended' e b h x y =
    let q = publish_accepted c known appended e b h in
    elim (Bool-cases (is_refused c known' appended')) [
      | inl p ↦ ap (λ (z : Broker). z x y) (publish_refused c known' appended' e _ p)
      | inr p ↦
          ap (λ (z : Broker). z x y) (publish_accepted c known' appended' e _ p)
          ∙ (ap
                (λ (z : Broker).
                  update z e.thread_id (event_branch_id e) (publish_to c e (stream_of z e)) x y)
                q
              ∙ (publish_again c e b x y ∙ ap (λ (z : Broker). z x y) (sym q)))
    ]

publish_to_keeps :
    (c : BrokerConfig) (e : Event) (s : Stream)
    → c.has_store ≡ false
    → contains e.sequence s.seen_sequences ≡ false
    → (publish_to c e s).history ≡ enqueue s.history e c.history_size
unfolding publish_to
publish_to_keeps c e s h k = rw (k, h)

-- Without a store, a publication of a new number leaves in the history of its stream the critical
-- events that were there, in their order, and behind them the new event, if it is critical.
pub publish_keeps_criticals :
    (c : BrokerConfig) (known appended : Bool) (e : Event) (b : Broker)
    → c.has_store ≡ false
    → contains e.sequence (stream_of b e).seen_sequences ≡ false
    → criticals (stream_of (publish c known appended e b) e).history
      ≡ criticals (stream_of b e).history ++ criticals (e ∷ [])
publish_keeps_criticals c known appended e b h k =
    ap (λ (z : Broker). criticals (stream_of z e).history)
      (publish_accepted c known appended e b (rw h))
    ∙ (ap (λ (z : Stream). criticals z.history)
          (update_at b e.thread_id (event_branch_id e) (publish_to c e (stream_of b e)))
        ∙ (ap criticals (publish_to_keeps c e (stream_of b e) h k)
            ∙ enqueue_keeps_criticals (stream_of b e).history e c.history_size))

critical_has_room :
    (q : List Event) (e : Event) (limit : ℕ)
    → is_critical e.type ≡ true
    → drops (make_room q e limit) ≡ 0
unfolding make_room
critical_has_room q e limit h = ground arith

publish_to_counts :
    (c : BrokerConfig) (e : Event) (s : Stream)
    → c.has_store ≡ false
    → contains e.sequence s.seen_sequences ≡ false
    → s.subscribers ≡ []
    → is_critical e.type ≡ true
    → (publish_to c e s).dropped ≡ s.dropped
unfolding publish_to
publish_to_counts c e s h k n q =
    rw (k, h, n) (omega (arith, critical_has_room s.history e c.history_size q))

-- A queue that lost its first event that is not critical, and took another at its end.
abbrev pub IsExchanged : List Event → Event → List Event → Type 0
IsExchanged before e after =
    (pre : List Event) × (x : Event) × (post : List Event) × (before ≡ pre ++ x ∷ post)
    × (all_critical pre ≡ true)
    × (is_critical x.type ≡ false)
    × (after ≡ (pre ++ post) ++ e ∷ [])

remove_splits :
    (q : List Event)
    → all_critical q ≡ false
    → (pre : List Event) × (x : Event) × (post : List Event) × (q ≡ pre ++ x ∷ post)
      × (all_critical pre ≡ true)
      × (is_critical x.type ≡ false)
      × (remove_removable q ≡ pre ++ post)
unfolding remove_removable
remove_splits [] h = absurd (ground (arith, h))
remove_splits (y ∷ ys) h = elim (Bool-cases (is_critical y.type)) [
  | inl c ↦
      let (pre, x, post, e, a, n, r) = remove_splits ys (ground (arith, h, c)) in
      (
        y ∷ pre,
        x,
        post,
        ap (λ (zs : List Event). y ∷ zs) e,
        ground (arith, c, a),
        n,
        rw c (ap (λ (zs : List Event). y ∷ zs) r),
      )
  | inr c ↦ ([], y, ys, refl, refl, c, rw c)
]

enqueue_exchanges :
    (q : List Event) (e : Event) (limit : ℕ)
    → limit ≤ length q
    → all_critical q ≡ false
    → is_critical e.type ≡ true
    → IsExchanged q e (enqueue q e limit)
unfolding enqueue
enqueue_exchanges q e limit h a k =
    let (pre, x, post, s, c, n, r) = remove_splits q a in
    let full : ltb (length q) limit ≡ false = ground (arith, h) in
    (pre, x, post, s, c, n, rw (full, k, r))

-- Without a store and subscribers, a new critical event that meets a full history with an event
-- that is not critical: the first such event leaves the history, the new event stands at its end,
-- the others stay in their order, and nothing is counted as dropped.
pub eviction_is_uncounted :
    (c : BrokerConfig) (known appended : Bool) (e : Event) (b : Broker)
    → c.has_store ≡ false
    → contains e.sequence (stream_of b e).seen_sequences ≡ false
    → (stream_of b e).subscribers ≡ []
    → is_critical e.type ≡ true
    → c.history_size ≤ length (stream_of b e).history
    → all_critical (stream_of b e).history ≡ false
    → let after = stream_of (publish c known appended e b) e in
      IsExchanged (stream_of b e).history e after.history
      × (after.dropped ≡ (stream_of b e).dropped)
eviction_is_uncounted c known appended e b h k n q l a =
    let s = stream_of b e in
    let at =
      ap (λ (z : Broker). stream_of z e) (publish_accepted c known appended e b (rw h))
      ∙ update_at b e.thread_id (event_branch_id e) (publish_to c e s) in
    (
      subst (IsExchanged s.history e) (sym (ap Stream.history at ∙ publish_to_keeps c e s h k))
          (enqueue_exchanges s.history e c.history_size l a q),
      ap Stream.dropped at ∙ publish_to_counts c e s h k n q,
    )
