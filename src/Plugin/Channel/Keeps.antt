-- ===== src/Plugin/Channel/Keeps.antt =====
-- The outcomes of the loops of `push_msg`, plugin-agave/src/channel.rs, and what each loop keeps.
use dragonmouth.Base.{
  ℕ, ◌≤◌, ◌≡◌, refl, sym, ap, ◌∙◌, Bool, List, [], ◌∷◌, ◌++◌, arith, length, append_assoc,
}
use dragonmouth.Plugin.Channel.{Outcome, ok, panic, stuck, ◌>>=◌, Shared}
use dragonmouth.Plugin.Channel.Inv.{Entry, Ring, Live}

-- `P` holds of the result, and the loop has not run out of fuel.
abbrev pub Ends {ℓ} : {A : Type ℓ} → (A → Type 0) → Outcome A → Type 0
Ends P (ok a) = P a
Ends P panic = Unit
Ends P stuck = ⊥

pub Ends-mono {ℓ} :
    {A : Type ℓ} (P Q : A → Type 0) (o : Outcome A) → ((a : A) → P a → Q a) → Ends P o → Ends Q o
Ends-mono P Q (ok a) f h = f a h
Ends-mono P Q panic f h = tt
Ends-mono P Q stuck f h = h

pub Ends->>= {ℓ κ} :
    {A : Type ℓ} {B : Type κ} (P : A → Type 0) (Q : B → Type 0) (o : Outcome A) (k : A → Outcome B)
    → ((a : A) → P a → Ends Q (k a))
    → Ends P o
    → Ends Q (o >>= k)
Ends->>= P Q (ok a) k f h = f a h
Ends->>= P Q panic k f h = tt
Ends->>= P Q stuck k f h = h

-- What a loop leaves of the state `s` that holds `q`, while the message `e` is on its way and `n` of
-- its bytes are counted: the messages `gone` have left from the front, and nothing else has changed.
pub record Keeps (cap : ℕ) (b : Bool) (n : ℕ) (e : Entry) (q : List Entry) (s s' : Shared)
    : Type 0 where
  pub gone : List Entry
  pub rest : List Entry
  pub split : q ≡ gone ++ rest
  pub ring : Ring cap b n s' rest
  pub live : Live s'.head (rest ++ (e ∷ [])) s'.slots
  pub tail_is : s'.tail ≡ s.tail
  pub slots_max_is : s'.slots_max ≡ s.slots_max
  pub bytes_max_is : s'.bytes_max ≡ s.bytes_max
  pub wakers_is : s'.wakers ≡ s.wakers
  pub fewer : length s'.slots ≤ length s.slots

module _ {cap : ℕ} {b : Bool} {n : ℕ} (e : Entry) where
  pub Keeps-self :
      {q : List Entry} {s : Shared}
      → Ring cap b n s q
      → Live s.head (q ++ (e ∷ [])) s.slots
      → Keeps cap b n e q s s
  Keeps-self {q} r l = record {
    gone = [];
    rest = q;
    split = refl;
    ring = r;
    live = l;
    tail_is = refl;
    slots_max_is = refl;
    bytes_max_is = refl;
    wakers_is = refl;
    fewer = omega arith;
  }

  -- A state from which a loop goes on, when the messages `front` have left.
  pub Keeps-step :
      (front : List Entry) {q : List Entry} {s t s' : Shared}
      → t.tail ≡ s.tail
      → t.slots_max ≡ s.slots_max
      → t.bytes_max ≡ s.bytes_max
      → t.wakers ≡ s.wakers
      → length t.slots ≤ length s.slots
      → Keeps cap b n e q t s'
      → Keeps cap b n e (front ++ q) s s'
  Keeps-step front a c d f g k = record {
    gone = front ++ k.gone;
    rest = k.rest;
    split = ap (◌++◌ front) k.split ∙ sym (append_assoc front k.gone k.rest);
    ring = k.ring;
    live = k.live;
    tail_is = k.tail_is ∙ a;
    slots_max_is = k.slots_max_is ∙ c;
    bytes_max_is = k.bytes_max_is ∙ d;
    wakers_is = k.wakers_is ∙ f;
    fewer = omega (arith, k.fewer);
  }

  pub Keeps-trans :
      {q : List Entry} {s t s' : Shared} (k : Keeps cap b n e q s t)
      → Keeps cap b n e k.rest t s'
      → Keeps cap b n e q s s'
  Keeps-trans k k' = record {
    gone = k.gone ++ k'.gone;
    rest = k'.rest;
    split = k.split ∙ ap (◌++◌ k.gone) k'.split ∙ sym (append_assoc k.gone k'.gone k'.rest);
    ring = k'.ring;
    live = k'.live;
    tail_is = k'.tail_is ∙ k.tail_is;
    slots_max_is = k'.slots_max_is ∙ k.slots_max_is;
    bytes_max_is = k'.bytes_max_is ∙ k.bytes_max_is;
    wakers_is = k'.wakers_is ∙ k.wakers_is;
    fewer = omega (arith, k.fewer, k'.fewer);
  }
