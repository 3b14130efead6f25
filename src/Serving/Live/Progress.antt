-- ===== src/Serving/Live/Progress.antt =====
-- What no step of a dense engine takes back: tokens, ended requests, and events.
use mini_gpt.Prelude.{
  ◌≡◌, refl, sym, ◌∙◌, ap, String, Option, some, true, false, List, [], ◌++◌, arith, str_eq, eq_iff,
  Bool-cases, inl, inr,
}
use mathlib.Core.List.{append_assoc, append-nil}
use mathlib.Core.Path.{subst}
use mini_gpt.Dict.{get}
use mini_gpt.Exec.{Exec, Result, Ends-continue, Ends-mono, Returns, continue}
use mini_gpt.Serving.Types.{RequestState, Engine}
use mini_gpt.Serving.State.{is_terminal}
use mini_gpt.Serving.Live.Invariant.{IsLive}

-- One list goes on from another.
abbrev pub Extends : {A : Type 0} → List A → List A → Type 0
Extends {A} xs ys = (zs : List A) × (ys ≡ xs ++ zs)

pub Extends-refl : {A : Type 0} (xs : List A) → Extends xs xs
Extends-refl xs = ([], sym (append-nil xs))

pub Extends-trans :
    {A : Type 0} (xs : List A) {ys zs : List A} → Extends xs ys → Extends ys zs → Extends xs zs
Extends-trans xs (us, p) (vs, q) = (us ++ vs, q ∙ ap (λ w. w ++ vs) p ∙ append_assoc xs us vs)

found_eq : {A : Type 0} {o : Option A} {a b : A} → o ≡ some a → o ≡ some b → a ≡ b
found_eq p q = cc

module _ {T : Type 0} where
  -- What a request's object is later.
  pub record Later (s s' : RequestState T) : Type 0 where
    pub request : s'.request ≡ s.request
    pub generated : Extends s.generated_tokens s'.generated_tokens
    pub ended : is_terminal s.status ≡ true → s' ≡ s

  pub Later-refl : (s : RequestState T) → Later s s
  Later-refl s = record {
    request = refl;
    generated = Extends-refl s.generated_tokens;
    ended = λ e. refl;
  }

  pub Later-trans : {s s' s'' : RequestState T} → Later s s' → Later s' s'' → Later s s''
  Later-trans {s} a b = record {
    request = b.request ∙ a.request;
    generated = Extends-trans s.generated_tokens a.generated b.generated;
    ended = λ e. b.ended (subst (λ u. is_terminal u.status ≡ true) (sym (a.ended e)) e) ∙ a.ended e;
  }

  -- A live request's object goes on in any way that keeps its request and its tokens.
  pub Later-live :
      (s s' : RequestState T)
      → is_terminal s.status ≡ false
      → s'.request ≡ s.request
      → Extends s.generated_tokens s'.generated_tokens
      → Later s s'
  Later-live s s' h r g = record {
    request = r;
    generated = g;
    ended = λ e. absurd (ground (arith, e, h));
  }

  -- The engine after steps.
  pub record Advanced (e e' : Engine T) : Type 0 where
    pub config : e'.config ≡ e.config
    pub kept :
        (id : String) (s : RequestState T)
        → get e.states id ≡ some s
        → (s' : RequestState T) × (get e'.states id ≡ some s') × Later s s'
    pub log : Extends e.events e'.events

  pub Advanced-refl : (e : Engine T) → Advanced e e
  Advanced-refl e = record {
    config = refl;
    kept = λ id s h. (s, h, Later-refl s);
    log = Extends-refl e.events;
  }

  pub Advanced-trans : {e e' e'' : Engine T} → Advanced e e' → Advanced e' e'' → Advanced e e''
  Advanced-trans {e} a b = record {
    config = b.config ∙ a.config;
    kept = λ id s h.
        let (s', h', l) = a.kept id s h in
        let (s'', h'', l') = b.kept id s' h' in (s'', h'', Later-trans l l');
    log = Extends-trans e.events a.log b.log;
  }

  -- A step of one request, which had the given object.
  pub record Updated (id : String) (s : RequestState T) (e e' : Engine T) : Type 0 where
    pub new : RequestState T
    pub live : IsLive e'
    pub config : e'.config ≡ e.config
    pub here : get e'.states id ≡ some new
    pub others : (j : String) → str_eq id j ≡ false → get e'.states j ≡ get e.states j
    pub later : Later s new
    pub log : Extends e.events e'.events

  -- A step of a request, and a step from the object that it left.
  pub Updated-then :
      (id : String) (s s' : RequestState T) (e e' e'' : Engine T)
      → Updated id s e e'
      → get e'.states id ≡ some s'
      → Updated id s' e' e''
      → Updated id s e e''
  Updated-then id s s' e e' e'' u h v = record {
    new = v.new;
    live = v.live;
    config = v.config ∙ u.config;
    here = v.here;
    others = λ j o. v.others j o ∙ u.others j o;
    later = Later-trans (subst (Later s) (found_eq u.here h) u.later) v.later;
    log = Extends-trans e.events u.log v.log;
  }

  pub Updated-Advanced :
      {id : String} {s : RequestState T} {e e' : Engine T}
      → get e.states id ≡ some s
      → Updated id s e e'
      → Advanced e e'
  Updated-Advanced {id} {s} {e} {e'} h u = record {
    config = u.config;
    kept = λ j t k. elim (Bool-cases (str_eq id j)) [
      | inl same ↦
          let p : id ≡ j = (eq_iff id j).0 same in
          (
            u.new,
            subst (λ i. get e'.states i ≡ some u.new) p u.here,
            subst (λ w. Later w u.new) (found_eq (subst (λ i. get e.states i ≡ some s) p h) k)
                u.later,
          )
      | inr other ↦ (t, u.others j other ∙ k, Later-refl t)
    ];
    log = u.log;
  }

  -- The call returns, and leaves a live engine that advanced.
  abbrev pub Runs : {A : Type 0} → Engine T → Result A × Engine T → Type 0
  Runs e r = Returns (λ _ e'. IsLive e' × Advanced e e') r

  pub Runs-then :
      {A B : Type 0} {e : Engine T} {r : Result A × Engine T} (f : A → Exec (Engine T) B)
      → Runs e r
      → ((a : A) (e' : Engine T) → IsLive e' → Advanced e e' → Runs e' (f a e'))
      → Runs e (continue r.0 f r.1)
  Runs-then f m k = Ends-continue f m (λ a e' (l, adv).
      Ends-mono (k a e' l adv) (λ b e'' (l', adv'). (l', Advanced-trans adv adv')) (λ _ _ x. x))
