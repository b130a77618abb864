-- ===== src/Events/Fifo.antt =====
-- The channel delivers what it accepts, in order, and never holds more than its size.
use mathlib.Core.List.{append_assoc}
use mathlib.Core.Path.{subst}
use network_digital_twin_pla.Prelude.{
  ℕ, suc, ◌≤◌, ◌≡◌, refl, ◌∙◌, ap, sym, inl, inr, List, [], ◌∷◌, ◌++◌, Option, none, some, Result,
  ok, err, length, length-append, ltb, arith, Bool-cases,
}
use network_digital_twin_pla.Events.{Channel, PublishError, new_channel_event_bus, publish, receive}

-- What happens to the channel, one after the other.
pub data Op (A : Type 0) : Type 0 where
  publishes : A → Op A
  receives : Op A

-- The channel, the events whose `Publish` returned nil, and those that the consumer has got.
pub record Run (A : Type 0) : Type 0 where
  pub channel : Channel A
  pub accepted : List A
  pub delivered : List A

module _ {A : Type 0} where
  abbrev pub after_publish : A → Run A → Result PublishError (Unit {0}) × Channel A → Run A
  after_publish event r (ok _, ch) = record {
    channel = ch;
    accepted = r.accepted ++ event ∷ [];
    delivered = r.delivered;
  }
  after_publish event r (err _, ch) = record r { channel = ch }

  abbrev pub after_receive : Run A → Option (A × Channel A) → Run A
  after_receive r none = r
  after_receive r (some (event, ch)) = record {
    channel = ch;
    accepted = r.accepted;
    delivered = r.delivered ++ event ∷ [];
  }

  abbrev pub perform : Op A → Run A → Run A
  perform (publishes event) r = after_publish event r (publish event r.channel)
  perform receives r = after_receive r (receive r.channel)

  abbrev pub perform_all : List (Op A) → Run A → Run A
  perform_all [] r = r
  perform_all (op ∷ ops) r = perform_all ops (perform op r)

  pub record IsFifo (r : Run A) : Type 0 where
    pub in_order : r.accepted ≡ r.delivered ++ r.channel.queue
    pub bounded : length r.channel.queue ≤ r.channel.capacity

  publish-IsFifo : (event : A) (r : Run A) → IsFifo r → IsFifo (perform (publishes event) r)
  unfolding publish
  publish-IsFifo event r f = elim (Bool-cases (ltb (length r.channel.queue) r.channel.capacity)) [
    | inl room ↦ rw (room) (record {
      in_order =
          ap (λ l. l ++ event ∷ []) f.in_order
          ∙ append_assoc r.delivered r.channel.queue (event ∷ []);
      bounded = ground (arith, room, length-append r.channel.queue (event ∷ []));
    })
    | inr full ↦ rw (full) (record { in_order = f.in_order; bounded = f.bounded })
  ]

  receive_nothing : (ch : Channel A) → ch.queue ≡ [] → receive ch ≡ none
  unfolding receive
  receive_nothing ch e = rw (e, receive) refl

  receive_first :
      (ch : Channel A) (x : A) (xs : List A)
      → ch.queue ≡ x ∷ xs
      → receive ch ≡ some (x, record { capacity = ch.capacity; queue = xs })
  unfolding receive
  receive_first ch x xs e = rw (e, receive) refl

  receive-IsFifo : (r : Run A) → IsFifo r → IsFifo (perform receives r)
  receive-IsFifo r f = go r.channel.queue refl
    where
      go : (q : List A) → r.channel.queue ≡ q → IsFifo (perform receives r)
      go [] e = subst (λ o. IsFifo (after_receive r o)) (sym (receive_nothing r.channel e)) f
      go (x ∷ xs) e =
          subst (λ o. IsFifo (after_receive r o)) (sym (receive_first r.channel x xs e))
            (record {
              in_order =
                  f.in_order
                  ∙ ap (λ q. r.delivered ++ q) e
                  ∙ sym (append_assoc r.delivered (x ∷ []) xs);
              bounded =
                  let size : length r.channel.queue ≡ suc (length xs) = ap length e in
                  omega (arith, size, f.bounded);
            })

  perform_all-IsFifo : (ops : List (Op A)) (r : Run A) → IsFifo r → IsFifo (perform_all ops r)
  perform_all-IsFifo [] r f = f
  perform_all-IsFifo (publishes event ∷ ops) r f =
      perform_all-IsFifo ops (perform (publishes event) r) (publish-IsFifo event r f)
  perform_all-IsFifo (receives ∷ ops) r f =
      perform_all-IsFifo ops (perform receives r) (receive-IsFifo r f)

  -- A new bus with nothing published or received.
  abbrev pub new_run : ℕ → Run A
  new_run buffer_size = record {
    channel = new_channel_event_bus buffer_size;
    accepted = [];
    delivered = [];
  }

  -- Whatever the order of publishing and receiving on a new bus, the consumer has got the events
  -- whose `Publish` returned nil, in their order and each once, but for those that wait; and no more
  -- wait than the size of the buffer.
  pub perform_all-new :
      (buffer_size : ℕ) (ops : List (Op A)) → IsFifo (perform_all ops (new_run buffer_size))
  unfolding new_channel_event_bus
  perform_all-new buffer_size ops =
      perform_all-IsFifo ops (new_run buffer_size)
        (record { in_order = refl; bounded = omega arith })
