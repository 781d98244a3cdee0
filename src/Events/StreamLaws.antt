-- ===== src/Events/StreamLaws.antt =====
-- What every stream of a broker satisfies, whatever the order of the steps that lead to it.
use mcp_software_factory.Prelude.{
  ℕ, ◌≡◌, refl, sym, ap, ◌∙◌, ◌≤◌, ◌+◌, inl, inr, Bool, true, false, not, ◌==◌, nat_eq, nat_beq_iff,
  string_eq, List, [], ◌∷◌, ◌++◌, map, length, keep, contains, arith, Bool-cases, subst,
  if◌then◌else◌, String, ◌&&◌,
}
use mcp_software_factory.Events.Types.{Event, event_branch_id}
use mcp_software_factory.Events.Queue.{remove_removable, enqueue}
use mcp_software_factory.Events.Broker.{
  Subscriber, Stream, BrokerConfig, Broker, empty_stream, update, offer, publish_to, publish,
  take_next, poll_one, Step, publishes, subscribes, polls, unsubscribes, closes, Reachable, created,
  stepped,
}
use mcp_software_factory.Events.QueueLaws.{IsBounded, enqueue-IsBounded}

-- How often a sequence number stands in a queue.
abbrev pub occurrences : ℕ → List Event → ℕ
occurrences n q = length (keep (λ e. n == e.sequence) q)

abbrev pub seen_count : ℕ → List ℕ → ℕ
seen_count n seen = if contains n seen then 1 else 0

-- No sequence number stands twice in the queue, and only those stand there that have been seen.
abbrev pub IsUnique : List ℕ → List Event → Type 0
IsUnique seen q = (n : ℕ) → occurrences n q ≤ seen_count n seen

occurrences-remove : (n : ℕ) (q : List Event) → occurrences n (remove_removable q) ≤ occurrences n q
unfolding remove_removable
occurrences-remove n [] = omega arith
occurrences-remove n (x ∷ xs) = ground (arith, occurrences-remove n xs)

occurrences-append :
    (n : ℕ) (q : List Event) (e : Event)
    → occurrences n (q ++ e ∷ []) ≡ occurrences n q + occurrences n (e ∷ [])
occurrences-append n [] e = omega arith
occurrences-append n (x ∷ xs) e = ground (arith, occurrences-append n xs e)

occurrences-enqueue :
    (n : ℕ) (q : List Event) (e : Event) (limit : ℕ)
    → occurrences n (enqueue q e limit) ≤ occurrences n q + occurrences n (e ∷ [])
unfolding enqueue
occurrences-enqueue n q e limit = ground (
  arith,
  occurrences-append n q e,
  occurrences-append n (remove_removable q) e,
  occurrences-remove n q,
)

same_contains :
    (n k : ℕ) (seen : List ℕ) → n == k ≡ true → contains k seen ≡ false → contains n seen ≡ false
same_contains n k seen p h = ap (λ (m : ℕ). contains m seen) ((nat_beq_iff n k).0 p) ∙ h

enqueue-IsUnique :
    (seen : List ℕ) (q : List Event) (e : Event) (limit : ℕ)
    → contains e.sequence seen ≡ false
    → IsUnique seen q
    → IsUnique (e.sequence ∷ seen) (enqueue q e limit)
enqueue-IsUnique seen q e limit fresh h n =
    ground (arith, occurrences-enqueue n q e limit, h n, same_contains n e.sequence seen)

seen_IsUnique : (k : ℕ) (seen : List ℕ) (q : List Event) → IsUnique seen q → IsUnique (k ∷ seen) q
seen_IsUnique k seen q h n = ground (arith, h n)

-- A queue that is bounded and holds no number twice.
abbrev pub IsGoodQueue : ℕ → List ℕ → List Event → Type 0
IsGoodQueue limit seen q = IsBounded limit q × IsUnique seen q

abbrev pub AllGood : ℕ → List ℕ → List Subscriber → Type 0
AllGood limit seen [] = Unit
AllGood limit seen (s ∷ ss) = IsGoodQueue limit seen s.events × AllGood limit seen ss

-- The history and the queue of each subscriber are such queues.
abbrev pub IsWell : BrokerConfig → Stream → Type 0
IsWell c s =
    IsGoodQueue c.history_size s.seen_sequences s.history
    × AllGood c.subscriber_queue_size s.seen_sequences s.subscribers

empty-IsWell : (c : BrokerConfig) → IsWell c empty_stream
empty-IsWell c = ((inr refl, λ n. omega arith), tt)

enqueue-IsGoodQueue :
    (seen : List ℕ) (q : List Event) (e : Event) (limit : ℕ)
    → contains e.sequence seen ≡ false
    → IsGoodQueue limit seen q
    → IsGoodQueue limit (e.sequence ∷ seen) (enqueue q e limit)
enqueue-IsGoodQueue seen q e limit fresh (b, u) =
    (enqueue-IsBounded q e limit b, enqueue-IsUnique seen q e limit fresh u)

offer_enqueues :
    (limit : ℕ) (e : Event) (s : Subscriber) → (offer limit e s).events ≡ enqueue s.events e limit
unfolding offer enqueue
offer_enqueues limit e s = ground arith

offers-AllGood :
    (limit : ℕ) (seen : List ℕ) (e : Event) (ss : List Subscriber)
    → contains e.sequence seen ≡ false
    → AllGood limit seen ss
    → AllGood limit (e.sequence ∷ seen) (map (offer limit e) ss)
offers-AllGood limit seen e [] fresh h = tt
offers-AllGood limit seen e (s ∷ ss) fresh (g, h) = (
  subst (IsGoodQueue limit (e.sequence ∷ seen)) (sym (offer_enqueues limit e s))
      (enqueue-IsGoodQueue seen s.events e limit fresh g),
  offers-AllGood limit seen e ss fresh h,
)

publish_to_seen :
    (c : BrokerConfig) (e : Event) (s : Stream)
    → contains e.sequence s.seen_sequences ≡ true
    → publish_to c e s ≡ s
unfolding publish_to
publish_to_seen c e s h = rw h

-- The fields of the stream behind an event whose number is new.
publish_to_fresh :
    (c : BrokerConfig) (e : Event) (s : Stream)
    → contains e.sequence s.seen_sequences ≡ false
    → ((publish_to c e s).history
        ≡ (if c.has_store then s.history else enqueue s.history e c.history_size))
      × ((publish_to c e s).subscribers ≡ map (offer c.subscriber_queue_size e) s.subscribers)
      × ((publish_to c e s).seen_sequences ≡ e.sequence ∷ s.seen_sequences)
unfolding publish_to
publish_to_fresh c e s h = (rw h, rw h, rw h)

history-IsGoodQueue :
    (store : Bool) (limit : ℕ) (seen : List ℕ) (q : List Event) (e : Event)
    → contains e.sequence seen ≡ false
    → IsGoodQueue limit seen q
    → IsGoodQueue limit (e.sequence ∷ seen) (if store then q else enqueue q e limit)
history-IsGoodQueue true limit seen q e fresh (b, u) = (b, seen_IsUnique e.sequence seen q u)
history-IsGoodQueue false limit seen q e fresh g = enqueue-IsGoodQueue seen q e limit fresh g

publish_to-IsWell :
    (c : BrokerConfig) (e : Event) (s : Stream) → IsWell c s → IsWell c (publish_to c e s)
publish_to-IsWell c e s (g, h) = elim (Bool-cases (contains e.sequence s.seen_sequences)) [
  | inl p ↦ subst (IsWell c) (sym (publish_to_seen c e s p)) (g, h)
  | inr p ↦
      let (hist, subs, seen) = publish_to_fresh c e s p in
      (
        rw (hist, seen)
            (history-IsGoodQueue c.has_store c.history_size s.seen_sequences s.history e p g),
        rw (subs, seen)
            (offers-AllGood c.subscriber_queue_size s.seen_sequences e s.subscribers p h),
      )
]

tail-IsGoodQueue :
    (limit : ℕ) (seen : List ℕ) (e : Event) (q : List Event)
    → IsGoodQueue limit seen (e ∷ q)
    → IsGoodQueue limit seen q
tail-IsGoodQueue limit seen e q (b, u) = (ground arith, λ n. ground (arith, u n))

polls-AllGood :
    (limit : ℕ) (seen : List ℕ) (id : ℕ) (ss : List Subscriber)
    → AllGood limit seen ss
    → AllGood limit seen (map (poll_one id) ss)
polls-AllGood limit seen id [] h = tt
polls-AllGood limit seen id (s ∷ ss) (g, h) = (polled s g, polls-AllGood limit seen id ss h)
  where
    taken :
        (s : Subscriber) (q : List Event)
        → IsGoodQueue limit seen q
        → IsGoodQueue limit seen s.events
        → IsGoodQueue limit seen (take_next s q).events
    taken s [] g k = k
    taken s (e ∷ q) g k = tail-IsGoodQueue limit seen e q g

    polled :
        (s : Subscriber)
        → IsGoodQueue limit seen s.events
        → IsGoodQueue limit seen (poll_one id s).events
    polled s g = elim (Bool-cases (s.id == id)) [
      | inl p ↦ rw p (taken s s.events g g)
      | inr p ↦ rw p g
    ]

keep-AllGood :
    (limit : ℕ) (seen : List ℕ) (p : Subscriber → Bool) (ss : List Subscriber)
    → AllGood limit seen ss
    → AllGood limit seen (keep p ss)
keep-AllGood limit seen p [] h = tt
keep-AllGood limit seen p (s ∷ ss) (g, h) = elim (Bool-cases (p s)) [
  | inl q ↦ rw (q, AllGood) (g, keep-AllGood limit seen p ss h)
  | inr q ↦ rw (q, AllGood) (keep-AllGood limit seen p ss h)
]

update-IsWell :
    (c : BrokerConfig) (b : Broker) (thread branch : String) (s : Stream)
    → IsWell c s
    → (t r : String) → IsWell c (b t r)
    → IsWell c (update b thread branch s t r)
update-IsWell c b thread branch s h t r k = elim (Bool-cases (thread == t && branch == r)) [
  | inl p ↦ rw p h
  | inr p ↦ rw p k
]

Step-IsWell :
    (c : BrokerConfig) (a b : Broker)
    → Step c a b
    → ((t r : String) → IsWell c (a t r))
    → (t r : String) → IsWell c (b t r)
unfolding publish
Step-IsWell c _ _ (publishes known appended e b) k t r =
    elim (Bool-cases (c.has_store && not known && not appended)) [
      | inl p ↦ rw p (k t r)
      | inr p ↦ rw p (
          update-IsWell c b e.thread_id (event_branch_id e) _
            (publish_to-IsWell c e _ (k e.thread_id (event_branch_id e))) t r (k t r))
    ]
Step-IsWell c _ _ (subscribes x y id b) k t r =
    update-IsWell c b x y _ ((k x y).0, ((inl (omega arith), λ n. omega arith), (k x y).1)) t r
      (k t r)
Step-IsWell c _ _ (polls x y id b) k t r =
    update-IsWell c b x y _
      ((k x y).0, polls-AllGood c.subscriber_queue_size _ id (b x y).subscribers (k x y).1) t r
      (k t r)
Step-IsWell c _ _ (unsubscribes x y id b) k t r =
    update-IsWell c b x y _
      ((k x y).0, keep-AllGood c.subscriber_queue_size _ _ (b x y).subscribers (k x y).1) t r
      (k t r)
Step-IsWell c _ _ (closes b) k t r = ((k t r).0, tt)

-- The streams of every broker that some sequence of publications, subscriptions, polls and removals
-- reaches: each history and each subscriber's queue is within its limit or nothing but critical,
-- holds no sequence number twice and only numbers that were seen.
pub Reachable-IsWell :
    (c : BrokerConfig) (b : Broker)
    → Reachable c b
    → (thread branch : String) → IsWell c (b thread branch)
Reachable-IsWell c _ created = λ t r. empty-IsWell c
Reachable-IsWell c _ (stepped h step) = Step-IsWell c _ _ step (Reachable-IsWell c _ h)
