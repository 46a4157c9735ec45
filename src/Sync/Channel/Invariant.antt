-- ===== src/Sync/Channel/Invariant.antt =====
-- The state that `send` and `recv` keep (channel.hpp).
use faio.Base.{
  either, ℕ, ◌≡◌, ◌⊎◌, refl, sym, ap, ap₂, ◌∙◌, true, false, List, [], ◌∷◌, ◌++◌, inl, inr,
  Bool-cases, map, map-append, append-nil, append_assoc,
}
use faio.Sync.RingBuffer.{is_empty, is_fill, safety_push}
use faio.Sync.RingBuffer.Laws.{IsValid, contents, safety_push-contents, empty_contents}
use mathlib.Core.Bool.{true≢false}
use mathlib.Core.List.{cons≢nil}
use faio.Sync.Channel.{
  received, sent, closed, suspended, done, closed_channel, Channel, Resumed, Outcome, Step, Sent,
  send_to, send,
}

-- The ring buffer is well formed. No receiver waits, and senders wait only behind a full buffer; or
-- no sender waits and the buffer is empty.
pub record ChannelIsValid {A : Type 0} (c : Channel A) : Type 0 where
  pub ring : IsValid c.buffer
  pub mode :
      ((c.waiting_receivers ≡ []) × ((c.waiting_senders ≡ []) ⊎ (is_fill c.buffer ≡ true)))
      ⊎ ((c.waiting_senders ≡ []) × (is_empty c.buffer ≡ true))

module _ {A : Type 0} where
  -- The values in the channel, those in the buffer first and then those of the waiting senders.
  abbrev pub backlog : Channel A → List A
  backlog c = contents c.buffer ++ map (λ s. s.value) c.waiting_senders

  -- The values handed to receivers by the coroutines put on the run queue.
  abbrev pub delivered : List (Resumed A) → List A
  delivered [] = []
  delivered (received h v ∷ rest) = v ∷ delivered rest
  delivered (sent h ∷ rest) = delivered rest
  delivered (closed h ∷ rest) = delivered rest

  -- The value that `send` took over.
  abbrev pub accepted : Outcome Sent → A → List A
  accepted suspended v = v ∷ []
  accepted (done r) v = v ∷ []
  accepted closed_channel v = []

  -- The value that `recv` goes on with.
  abbrev pub taken : Outcome A → List A
  taken suspended = []
  taken (done v) = v ∷ []
  taken closed_channel = []

  module _ (c : Channel A) (valid : ChannelIsValid c) where
    pub record Sends (handle : ℕ) (v : A) (s : Step A Sent) : Type 0 where
      pub is_valid : ChannelIsValid s.channel
      pub in_order : delivered s.resumed ++ backlog s.channel ≡ backlog c ++ accepted s.outcome v

    pub no_senders : is_fill c.buffer ≡ false → c.waiting_senders ≡ []
    no_senders free = elim valid.mode [
      | inl (idle, inl none_wait) ↦ none_wait
      | inl (idle, inr full) ↦ absurd (true≢false (sym full ∙ free))
      | inr (none_wait, e) ↦ none_wait
    ]

    pub no_receivers : is_empty c.buffer ≡ false → c.waiting_receivers ≡ []
    no_receivers busy = elim valid.mode [
      | inl (idle, rest) ↦ idle
      | inr (none_wait, e) ↦ absurd (true≢false (sym e ∙ busy))
    ]

    starved : c.waiting_senders ≡ [] → is_empty c.buffer ≡ true → backlog c ≡ []
    starved none_wait idle =
        ap₂ ◌++◌ (empty_contents c.buffer valid.ring idle) (ap (map (λ s. s.value)) none_wait)

    pub backlog_flows : c.waiting_senders ≡ [] → backlog c ≡ contents c.buffer
    backlog_flows none_wait =
        ap (λ ws. contents c.buffer ++ map (λ s. s.value) ws) none_wait
        ∙ append-nil (contents c.buffer)

    send_to-Sends :
        (rs : List ℕ) (handle : ℕ) (v : A)
        → c.waiting_receivers ≡ rs
        → Sends handle v (send_to rs c handle v)
    send_to-Sends (receiver ∷ rest) handle v h = elim valid.mode [
      | inl (idle, _) ↦ absurd (cons≢nil (sym h ∙ idle))
      | inr (none_wait, idle) ↦ record {
        is_valid = record { ring = valid.ring; mode = inr (none_wait, idle) };
        in_order =
            ap (◌∷◌ v) (starved none_wait idle)
            ∙ sym (ap (λ xs. xs ++ v ∷ []) (starved none_wait idle));
      }
    ]
    send_to-Sends [] handle v h = elim (Bool-cases (is_fill c.buffer)) [
      | inl full ↦ rw full (
          either (Sends handle v) c.is_closed _ _
            (record { is_valid = valid; in_order = sym (append-nil (backlog c)) })
            (record {
              is_valid = record { ring = valid.ring; mode = inl (h, inr full) };
              in_order =
                  ap (◌++◌ (contents c.buffer)) (
                    map-append (λ s. s.value) c.waiting_senders
                      (record { handle = handle; value = v } ∷ []))
                  ∙ sym (
                      append_assoc (contents c.buffer) (map (λ s. s.value) c.waiting_senders)
                        (v ∷ []));
            }))
      | inr free ↦
          let none_wait = no_senders free in
          let pushed = safety_push-contents c.buffer v valid.ring free in
          rw free (record {
            is_valid = record { ring = pushed.0; mode = inl (h, inl none_wait) };
            in_order =
                ap (λ ws. contents (safety_push c.buffer v) ++ map (λ s. s.value) ws) none_wait
                ∙ append-nil (contents (safety_push c.buffer v))
                ∙ pushed.1
                ∙ ap (λ xs. xs ++ v ∷ []) (sym (backlog_flows none_wait));
          })
    ]

    -- send keeps a well formed channel well formed, and puts its value behind all others in
    -- the channel: the values that it hands over and those then in the channel are those that
    -- were in it and, unless the channel refuses it, the new one, in that order.
    pub send-Sends : (handle : ℕ) (v : A) → Sends handle v (send c handle v)
    unfolding send
    send-Sends handle v = send_to-Sends c.waiting_receivers handle v refl
