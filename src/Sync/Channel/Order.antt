-- ===== src/Sync/Channel/Order.antt =====
-- What `recv` gives (channel.hpp): a waiting sender's value before those in the buffer.
use mathlib.Core.List.{cons≢nil, Perm, perm_middle}
use mathlib.Core.List.Perm
use faio.Base.{
  either, ℕ, ◌≡◌, refl, sym, ap, subst, ◌∙◌, List, [], ◌∷◌, ◌++◌, inl, inr, Bool-cases, map,
}
use faio.Sync.RingBuffer.{is_empty}
use faio.Sync.RingBuffer.Laws.{contents, advance-contents}
use faio.Sync.Channel.{SendAwaiter, Channel, Step, recv_buffered, recv_from, recv}
use faio.Sync.Channel.Invariant.{ChannelIsValid, backlog, taken, no_receivers}

module _ {A : Type 0} (blank : A) (c : Channel A) (valid : ChannelIsValid c) where
  pub record Receives (s : Step A A) : Type 0 where
    pub is_valid : ChannelIsValid s.channel
    pub conserved : Perm (taken s.outcome ++ backlog s.channel) (backlog c)

  -- With no sender waiting, the value that comes is the oldest.
  recv_buffered-in_order :
      (handle : ℕ)
      → c.waiting_senders ≡ []
      → ChannelIsValid (recv_buffered blank c handle).channel
        × (taken (recv_buffered blank c handle).outcome
              ++ backlog (recv_buffered blank c handle).channel
            ≡ backlog c)
  recv_buffered-in_order handle none_wait = elim (Bool-cases (is_empty c.buffer)) [
    | inl idle ↦ rw idle (
        either
          (λ (s : Step A A).
            ChannelIsValid s.channel × (taken s.outcome ++ backlog s.channel ≡ backlog c))
          c.is_closed _ _ (valid, refl)
          (record { ring = valid.ring; mode = inr (none_wait, idle) }, refl))
    | inr busy ↦
        let popped = advance-contents c.buffer blank valid.ring busy in
        rw busy (
          record { ring = popped.0; mode = inl (no_receivers c valid busy, inl none_wait) },
          ap (λ xs. xs ++ map (λ s. s.value) c.waiting_senders) (sym popped.1),
        )
  ]

  recv_from-Receives :
      (ws : List (SendAwaiter A)) (handle : ℕ)
      → c.waiting_senders ≡ ws
      → Receives (recv_from blank ws c handle)
  recv_from-Receives [] handle h =
      let both = recv_buffered-in_order handle h in
      record { is_valid = both.0; conserved = subst (Perm _) both.1 (Perm.refl _) }
  recv_from-Receives (sender ∷ rest) handle h = elim valid.mode [
    | inl (idle, inl none_wait) ↦ absurd (cons≢nil (sym h ∙ none_wait))
    | inl (idle, inr full) ↦ record {
      is_valid = record { ring = valid.ring; mode = inl (idle, inr full) };
      conserved =
          subst (Perm (sender.value ∷ backlog (record c { waiting_senders = rest })))
            (ap (λ ws. contents c.buffer ++ map (λ t. t.value) ws) (sym h))
            (Perm.symm (perm_middle (contents c.buffer) (map (λ t. t.value) rest)));
    }
    | inr (none_wait, e) ↦ absurd (cons≢nil (sym h ∙ none_wait))
  ]

  -- recv keeps a well formed channel well formed, and no value is lost or doubled: the one that
  -- it gives, if any, and those left in the channel are those that were in it, in some order.
  pub recv-Receives : (handle : ℕ) → Receives (recv blank c handle)
  unfolding recv
  recv-Receives handle = recv_from-Receives c.waiting_senders handle refl

  -- Where no sender waits, the order is kept: the value given is the oldest.
  pub recv-in_order :
      (handle : ℕ)
      → c.waiting_senders ≡ []
      → taken (recv blank c handle).outcome ++ backlog (recv blank c handle).channel ≡ backlog c
  unfolding recv
  recv-in_order handle none_wait =
      ap
        (λ ws.
          taken (recv_from blank ws c handle).outcome
          ++ backlog (recv_from blank ws c handle).channel)
        none_wait
      ∙ (recv_buffered-in_order handle none_wait).1
