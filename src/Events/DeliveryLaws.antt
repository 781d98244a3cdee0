-- ===== src/Events/DeliveryLaws.antt =====
-- What a subscription yields.
use mcp_software_factory.Prelude.{
  ℕ, ◌≡◌, refl, sym, ◌∙◌, subst, ◌<◌, ◌↔◌, true, false, Option, List, [], ◌∷◌, ◌++◌, arith, get_or,
}
use mathlib.Core.Bool.{true≢false}
use mcp_software_factory.Events.Types.{Event, is_terminal}
use mcp_software_factory.Events.Broker.{deliver, subscription}

-- The sequence numbers grow, from above the given one.
abbrev pub IsIncreasingFrom : ℕ → List Event → Type 0
IsIncreasingFrom n [] = Unit
IsIncreasingFrom n (e ∷ es) = (n < e.sequence) × IsIncreasingFrom e.sequence es

-- Only the last event may end the workflow.
abbrev pub EndsOnce : List Event → Type 0
EndsOnce [] = Unit
EndsOnce (e ∷ []) = Unit
EndsOnce (e ∷ f ∷ es) = (is_terminal e.type ≡ false) × EndsOnce (f ∷ es)

deliver-IsIncreasingFrom : (n : ℕ) (es : List Event) → IsIncreasingFrom n (deliver n es).yielded
unfolding deliver
deliver-IsIncreasingFrom n [] = tt
deliver-IsIncreasingFrom n (e ∷ es) =
    ground (arith, deliver-IsIncreasingFrom n es, deliver-IsIncreasingFrom e.sequence es)

EndsOnce-cons :
    (e : Event) (es : List Event) → is_terminal e.type ≡ false → EndsOnce es → EndsOnce (e ∷ es)
EndsOnce-cons e [] h k = tt
EndsOnce-cons e (f ∷ es) h k = (h, k)

deliver-EndsOnce : (n : ℕ) (es : List Event) → EndsOnce (deliver n es).yielded
unfolding deliver
deliver-EndsOnce n [] = tt
deliver-EndsOnce n (e ∷ es) = ground (
  arith,
  deliver-EndsOnce n es,
  deliver-EndsOnce e.sequence es,
  EndsOnce-cons e (deliver e.sequence es).yielded,
)

deliver-append :
    (n : ℕ) (es fs : List Event)
    → (deliver n es).finished ≡ false
    → (deliver n (es ++ fs)).yielded
      ≡ (deliver n es).yielded ++ (deliver (deliver n es).last_delivered fs).yielded
unfolding deliver
deliver-append n [] fs h = refl
deliver-append n (e ∷ es) fs h =
    ground (arith, deliver-append n es fs, deliver-append e.sequence es fs)

deliver-finished :
    (n : ℕ) (es fs : List Event)
    → (deliver n es).finished ≡ true
    → (deliver n (es ++ fs)).yielded ≡ (deliver n es).yielded
unfolding deliver
deliver-finished n [] fs h = absurd (true≢false (sym h))
deliver-finished n (e ∷ es) fs h =
    ground (arith, deliver-finished n es fs, deliver-finished e.sequence es fs)

deliver_all :
    (n : ℕ) (es : List Event) → IsIncreasingFrom n es → EndsOnce es → (deliver n es).yielded ≡ es
unfolding deliver
deliver_all n [] i h = refl
deliver_all n (e ∷ []) i h = ground arith
deliver_all n (e ∷ f ∷ es) (l, i) (h, k) = ground (arith, deliver_all e.sequence (f ∷ es) i k)

subscription_delivers :
    (after_sequence : Option ℕ) (history live : List Event)
    → subscription after_sequence history live
      ≡ (deliver (get_or after_sequence 0) (history ++ live)).yielded
unfolding subscription
subscription_delivers after_sequence history live = ground (
  arith,
  deliver-append (get_or after_sequence 0) history live,
  deliver-finished (get_or after_sequence 0) history live,
)

-- A subscription yields growing sequence numbers above its threshold and nothing behind the end of
-- the workflow, and it yields all of the history and the queue exactly when they are already such
-- a sequence.
pub subscription_is_exact :
    (after_sequence : Option ℕ) (history live : List Event)
    → let n = get_or after_sequence 0 in
      let y = subscription after_sequence history live in
      IsIncreasingFrom n y
      × EndsOnce y
      × ((y ≡ history ++ live)
          ↔ (IsIncreasingFrom n (history ++ live) × EndsOnce (history ++ live)))
subscription_is_exact after_sequence history live =
    let n = get_or after_sequence 0 in
    let q = subscription_delivers after_sequence history live in
    let grows = subst (IsIncreasingFrom n) (sym q) (deliver-IsIncreasingFrom n (history ++ live)) in
    let ends = subst EndsOnce (sym q) (deliver-EndsOnce n (history ++ live)) in
    (
      grows,
      ends,
      (
        (λ p. (subst (IsIncreasingFrom n) p grows, subst EndsOnce p ends)),
        (λ (i, k). q ∙ deliver_all n (history ++ live) i k),
      ),
    )
