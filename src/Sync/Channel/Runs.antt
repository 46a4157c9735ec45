-- ===== src/Sync/Channel/Runs.antt =====
-- Any sequence of `send` and `recv` on a channel (channel.hpp).

use mathlib.Core.List.{Perm}
use mathlib.Core.List.Perm
use faio.Base.{ℕ, ◌≡◌, sym, ap, subst, ◌∙◌, List, [], ◌∷◌, ◌++◌, append-nil, append_assoc}
use faio.Sync.Channel.{Channel, send, recv}
use faio.Sync.Channel.Invariant.{ChannelIsValid, backlog, delivered, accepted, taken, send-Sends}
use faio.Sync.Channel.Order.{recv-Receives, recv-in_order}

-- The calls, by the coroutine that makes them.
pub data Call (A : Type 0) : Type 0 where
  sends : ℕ → A → Call A
  receives : ℕ → Call A

-- The channel, the values that receivers got, and those that the channel took from senders.
pub record Log (A : Type 0) : Type 0 where
  pub channel : Channel A
  pub got : List A
  pub put : List A

module _ {A : Type 0} (blank : A) where
  abbrev pub call : Call A → Channel A → Log A
  call (sends handle v) c =
      let s = send c handle v in
      record { channel = s.channel; got = delivered s.resumed; put = accepted s.outcome v }
  call (receives handle) c =
      let s = recv blank c handle in record { channel = s.channel; got = taken s.outcome; put = [] }

  abbrev pub calls : List (Call A) → Channel A → Log A
  calls [] c = record { channel = c; got = []; put = [] }
  calls (k ∷ ks) c =
      let one = call k c in
      let rest = calls ks one.channel in
      record { channel = rest.channel; got = one.got ++ rest.got; put = one.put ++ rest.put }

  -- At no `recv` does a sender wait.
  abbrev pub Uncrowded : List (Call A) → Channel A → Type 0
  Uncrowded [] c = Unit
  Uncrowded (sends handle v ∷ ks) c = Uncrowded ks (send c handle v).channel
  Uncrowded (receives handle ∷ ks) c =
      (c.waiting_senders ≡ []) × Uncrowded ks (recv blank c handle).channel

  module _ (one rest : Log A) (b₀ : List A) where
    got-append :
        (one.got ++ rest.got) ++ backlog rest.channel
        ≡ one.got ++ (rest.got ++ backlog rest.channel)
    got-append = append_assoc one.got rest.got (backlog rest.channel)

    chain :
        Perm (one.got ++ backlog one.channel) (b₀ ++ one.put)
        → Perm (rest.got ++ backlog rest.channel) (backlog one.channel ++ rest.put)
        → Perm ((one.got ++ rest.got) ++ backlog rest.channel) (b₀ ++ (one.put ++ rest.put))
    chain p q =
        subst (λ l. Perm l (b₀ ++ (one.put ++ rest.put))) (sym got-append)
          (Perm.trans (Perm.append_left one.got q) (
            subst (λ l. Perm l (b₀ ++ (one.put ++ rest.put)))
              (append_assoc one.got (backlog one.channel) rest.put)
              (subst (Perm ((one.got ++ backlog one.channel) ++ rest.put))
                (append_assoc b₀ one.put rest.put) (Perm.append_right rest.put p))))

    chain_eq :
        one.got ++ backlog one.channel ≡ b₀ ++ one.put
        → rest.got ++ backlog rest.channel ≡ backlog one.channel ++ rest.put
        → (one.got ++ rest.got) ++ backlog rest.channel ≡ b₀ ++ (one.put ++ rest.put)
    chain_eq p q =
        got-append
        ∙ ap (◌++◌ one.got) q
        ∙ sym (append_assoc one.got (backlog one.channel) rest.put)
        ∙ ap (λ l. l ++ rest.put) p
        ∙ append_assoc b₀ one.put rest.put

  call-conserves :
      (k : Call A) (c : Channel A)
      → ChannelIsValid c
      → ChannelIsValid (call k c).channel
        × Perm ((call k c).got ++ backlog (call k c).channel) (backlog c ++ (call k c).put)
  call-conserves (sends handle v) c valid =
      let s = send-Sends c valid handle v in (s.is_valid, subst (Perm _) s.in_order (Perm.refl _))
  call-conserves (receives handle) c valid =
      let s = recv-Receives blank c valid handle in
      (s.is_valid, subst (Perm _) (sym (append-nil (backlog c))) s.conserved)

  -- Whatever is sent and received on a well formed channel, it stays well formed, and no value
  -- is lost or doubled: those that receivers got and those left in the channel are those that
  -- were in it and those it took from senders.
  pub calls_conserve :
      (ks : List (Call A)) (c : Channel A)
      → ChannelIsValid c
      → ChannelIsValid (calls ks c).channel
        × Perm ((calls ks c).got ++ backlog (calls ks c).channel) (backlog c ++ (calls ks c).put)
  calls_conserve [] c valid =
      (valid, subst (Perm (backlog c)) (sym (append-nil (backlog c))) (Perm.refl _))
  calls_conserve (k ∷ ks) c valid =
      let one = call-conserves k c valid in
      let rest = calls_conserve ks (call k c).channel one.0 in
      (rest.0, chain (call k c) (calls ks (call k c).channel) (backlog c) one.1 rest.1)

  -- As long as no recv comes while a sender waits, a well formed channel is a queue: receivers
  -- get the values in the order in which the channel took them.
  pub calls-in_order :
      (ks : List (Call A)) (c : Channel A)
      → ChannelIsValid c
      → Uncrowded ks c
      → (calls ks c).got ++ backlog (calls ks c).channel ≡ backlog c ++ (calls ks c).put
  calls-in_order [] c valid room = sym (append-nil (backlog c))
  calls-in_order (sends handle v ∷ ks) c valid room =
      let s = send-Sends c valid handle v in
      chain_eq (call (sends handle v) c) (calls ks (send c handle v).channel) (backlog c) s.in_order
        (calls-in_order ks _ s.is_valid room)
  calls-in_order (receives handle ∷ ks) c valid room =
      let s = recv-Receives blank c valid handle in
      let same = recv-in_order blank c valid handle room.0 in
      chain_eq (call (receives handle) c) (calls ks (recv blank c handle).channel) (backlog c)
        (same ∙ sym (append-nil (backlog c))) (calls-in_order ks _ s.is_valid room.1)
