-- ===== src/Sync/Channel/Starvation.antt =====
-- What a full buffer does to the values in it, when senders and receivers take turns (channel.hpp).
use faio.Base.{◌≡◌, refl, sym, ap, ap₂, subst, ◌∙◌, Bool, true, false, List, [], ◌∷◌, ◌++◌, ℕ}
use faio.Sync.RingBuffer.{RingBuffer, is_empty, is_fill}
use faio.Sync.Channel.{Channel, Step, Sent, suspended, send, recv}
use faio.Sync.Channel.Invariant.{ChannelIsValid, no_receivers, delivered, accepted}
use faio.Sync.Channel.Runs.{Call, sends, receives, Log, calls}

module _ {A : Type 0} (blank : A) (sender receiver : ℕ) where
  -- A send and then a receive, for each of the values.
  abbrev pub turns : List A → List (Call A)
  turns [] = []
  turns (v ∷ vs) = sends sender v ∷ receives receiver ∷ turns vs

  module _ (n m : ℕ) (buffer : RingBuffer A) (full : is_fill buffer ≡ true) where
    -- An open channel in which no one waits.
    abbrev calm : Channel A
    calm = record {
      num_senders = n;
      num_receivers = m;
      buffer = buffer;
      waiting_senders = [];
      waiting_receivers = [];
      is_closed = false;
    }

    -- The step of a sender that finds the buffer full.
    abbrev waits : A → Step A Sent
    waits v = record {
      channel = record calm { waiting_senders = record { handle = sender; value = v } ∷ [] };
      outcome = suspended;
      resumed = [];
    }

    abbrev after_send : A → List A → Step A Sent → Log A
    after_send v vs s =
        let rest = calls blank (receives receiver ∷ turns vs) s.channel in
        record {
          channel = rest.channel;
          got = delivered s.resumed ++ rest.got;
          put = accepted s.outcome v ++ rest.put;
        }

    abbrev Passed : List A → Log A → Type 0
    Passed vs log = (log.channel ≡ calm) × (log.got ≡ vs)

    send_full : (v : A) → send calm sender v ≡ waits v
    unfolding send
    send_full v = rw full refl

    calm-turns : (vs : List A) → Passed vs (calls blank (turns vs) calm)
    unfolding recv
    calm-turns [] = (refl, refl)
    calm-turns (v ∷ vs) =
        let later = calm-turns vs in
        subst (λ s. Passed (v ∷ vs) (after_send v vs s)) (sym (send_full v))
          (later.0, ap (◌∷◌ v) later.1)

  -- While coroutines send and receive by turns, the values in a full buffer of a well formed, open
  -- channel, in which no sender waits, are never received: each receiver gets the value that was sent just before, and
  -- afterwards the channel is what it was, those older values included. The buffer holds one at least.
  pub full_buffer_starves :
      (c : Channel A) (vs : List A)
      → ChannelIsValid c
      → c.is_closed ≡ false
      → c.waiting_senders ≡ []
      → is_fill c.buffer ≡ true
      → is_empty c.buffer ≡ false
      → ((calls blank (turns vs) c).got ≡ vs) × ((calls blank (turns vs) c).channel ≡ c)
  full_buffer_starves c vs valid open_channel none_wait full busy =
      let same : calm c.num_senders c.num_receivers c.buffer full ≡ c =
        ap₂ (λ ws rs. record c { waiting_senders = ws; waiting_receivers = rs; is_closed = false })
          (sym none_wait) (sym (no_receivers c valid busy))
        ∙ ap (λ (b : Bool). record c { is_closed = b }) (sym open_channel) in
      let passed = calm-turns c.num_senders c.num_receivers c.buffer full vs in
      (
        ap (λ d. (calls blank (turns vs) d).got) (sym same) ∙ passed.1,
        ap (λ d. (calls blank (turns vs) d).channel) (sym same) ∙ passed.0 ∙ same,
      )
