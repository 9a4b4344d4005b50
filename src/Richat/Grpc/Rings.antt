-- ===== src/Richat/Grpc/Rings.antt =====
-- The relay's valid rings, richat/src/channel.rs, as the workers of the gRPC server read them.
use dragonmouth.Base.{
  ℕ, ◌+◌, ◌-◌, ◌≤◌, ◌≡◌, refl, ap, ◌∙◌, ◌⊎◌, inl, inr, List, Option, none, some, arith, ltb,
  get_elem?, Bool-cases,
}
use dragonmouth.Plugin.Channel.{ok}
use dragonmouth.Plugin.Channel.Receive.{RecvError}
use dragonmouth.Filter.Slots.{CommitmentLevel}
use dragonmouth.Filter.Message.{Message}
use dragonmouth.Richat.Channel.{SenderShared}
use dragonmouth.Richat.Channel.Ring.{Entry, Ring}
use dragonmouth.Richat.Channel.Read.{told, at_position, try_recv-told}
use dragonmouth.Richat.Channel.Sender.{Sender, shared_of, receive}
use dragonmouth.Richat.Grpc.Logged.{Fits}

-- The ring of a commitment level, as its sender has it.
abbrev pub ring_of : Sender → CommitmentLevel → SenderShared
ring_of s CommitmentLevel.processed = s.processed
ring_of s CommitmentLevel.confirmed = s.confirmed
ring_of s CommitmentLevel.finalized = s.finalized

-- The messages of a ring are those that the log has at their positions.
abbrev pub IsLogged : (ℕ → Message) → SenderShared → List Entry → Type 0
IsLogged log s q = (i : ℕ) (e : Entry) → get_elem? q i ≡ some e → e.1 ≡ log (s.head + i)

at_position-Fits :
    (log : ℕ → Message) (s : SenderShared) (q : List Entry) (p : ℕ) (o : Option Entry)
    → IsLogged log s q
    → s.head ≤ p
    → get_elem? q (p - s.head) ≡ o
    → Fits log p (at_position o)
at_position-Fits log s q p none l h g = tt
at_position-Fits log s q p (some e) l h g =
    let here : s.head + (p - s.head) ≡ p = omega (arith, h) in l (p - s.head) e g ∙ ap log here

told-Fits :
    (log : ℕ → Message) (s : SenderShared) (q : List Entry) (p : ℕ)
    → IsLogged log s q
    → Fits log p (told s q p)
unfolding told
told-Fits log s q p l = elim (Bool-cases (ltb p s.shared.tail)) [
  | inl e ↦ elim (Bool-cases (ltb p s.head)) [
    | inl past ↦ rw (e, told) (rw past tt)
    | inr live ↦
        rw (e, told)
          (rw live (at_position-Fits log s q p (get_elem? q (p - s.head)) l (ground arith) refl))
  ]
  | inr e ↦ rw (e, told) tt
]

-- A valid ring answers a read at any position, and with no message but the log's.
pub receive-Fits :
    (log : ℕ → Message) (s : Sender) (c : CommitmentLevel) (size : ℕ) (q : List Entry) (h : ℕ)
    → Ring size (ring_of s c) q
    → IsLogged log (ring_of s c) q
    → (r : RecvError ⊎ Option Message) × (receive s c h ≡ ok r) × Fits log h r
unfolding receive shared_of
receive-Fits log s CommitmentLevel.processed size q h r l =
    (told s.processed q h, try_recv-told r h, told-Fits log s.processed q h l)
receive-Fits log s CommitmentLevel.confirmed size q h r l =
    (told s.confirmed q h, try_recv-told r h, told-Fits log s.confirmed q h l)
receive-Fits log s CommitmentLevel.finalized size q h r l =
    (told s.finalized q h, try_recv-told r h, told-Fits log s.finalized q h l)
