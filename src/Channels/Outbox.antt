-- ===== src/Channels/Outbox.antt =====
-- What leaves through the providers: actions that send nothing, and actions that send once.
use qeet_notify.Base.{◌≡◌, refl, ap, ◌∙◌, ◌⊎◌, inl, inr, List, [], ◌∷◌, ◌++◌, arith}
use qeet_notify.Base.Text.{Str}
use qeet_notify.Channels.Types.{Outgoing}
use qeet_notify.Platform.Tables.{Db}
use qeet_notify.Platform.World.{
  World, M, Result, ok, err, Error, provider_failed, Body, call, tx_call, publish, deliver,
  continue, pure, raise, gets, ◌>>=◌,
}
use qeet_notify.Platform.World.Effects.{tx_call-db, tx_call-error}

module _ {X : Type 0} (out : Str → X → Outgoing) where
  -- One message with this property was accepted by a provider, or none was.
  abbrev pub One : (X → Type 0) → List Outgoing → List Outgoing → Type 0
  One p before after =
      (after ≡ before) ⊎ (provider : Str) × (m : X) × (after ≡ before ++ out provider m ∷ []) × p m

  pub One-from : (p : X → Type 0) (a b c : List Outgoing) → b ≡ a → One p b c → One p a c
  One-from p a b c e (inl h) = inl (h ∙ e)
  One-from p a b c e (inr (n, m, h, q)) = inr (n, m, h ∙ ap (λ l. l ++ out n m ∷ []) e, q)

  pub One-to : (p : X → Type 0) (a b c : List Outgoing) → c ≡ b → One p a b → One p a c
  One-to p a b c e (inl h) = inl (e ∙ h)
  One-to p a b c e (inr (n, m, h, q)) = inr (n, m, e ∙ h, q)

  pub One-with :
      (p q : X → Type 0) (a b : List Outgoing) → ((x : X) → p x → q x) → One p a b → One q a b
  One-with p q a b f (inl e) = inl e
  One-with p q a b f (inr (n, x, e, y)) = inr (n, x, e, f x y)

-- Nothing leaves through a provider.
pub record Keeps {F A : Type 0} (m : M F A) : Type 0 where
  pub kept : (w : World F) → (m w).1.outbox ≡ w.outbox

module _ {F : Type 0} where
  pub tx_call-outbox : (w : World F) → (tx_call w).1.outbox ≡ w.outbox
  unfolding tx_call call
  tx_call-outbox w = ground arith

  pub publish-outbox :
      (subject : Str) (body : Body F) (w : World F) → (publish subject body w).1.outbox ≡ w.outbox
  unfolding publish call
  publish-outbox subject body w = ground arith

  pub deliver-outbox :
      (out : Outgoing) (w : World F)
      → (((deliver out w).0 ≡ ok tt) × ((deliver out w).1.outbox ≡ w.outbox ++ out ∷ []))
        ⊎ (((deliver out w).0 ≡ err provider_failed) × ((deliver out w).1.outbox ≡ w.outbox))
  unfolding deliver call
  deliver-outbox out w = ground arith

  pub Keeps-pure : {A : Type 0} (a : A) → Keeps {F = F} (pure a)
  Keeps-pure a = record { kept = λ w. refl }

  pub Keeps-raise : {A : Type 0} (e : Error) → Keeps {F = F} {A = A} (raise e)
  Keeps-raise e = record { kept = λ w. refl }

  pub Keeps-bind :
      {A B : Type 0} (m : M F A) (f : A → M F B)
      → Keeps m
      → ((a : A) → Keeps (f a))
      → Keeps (m >>= f)
  Keeps-bind {A} m f hm hf = record { kept = λ w. behind w (m w).0 (m w).1 (hm.kept w) }
    where
      behind :
          (w : World F) (r : Result A) (u : World F)
          → u.outbox ≡ w.outbox
          → (continue r f u).1.outbox ≡ w.outbox
      behind w (ok a) u e = (hf a).kept u ∙ e
      behind w (err x) u e = e

  pub Keeps-tx_call : Keeps {F = F} tx_call
  Keeps-tx_call = record { kept = tx_call-outbox }

-- Nothing leaves through a provider, and the tables stay as they are.
pub record Reads {F A : Type 0} (m : M F A) : Type 0 where
  pub sends_nothing : Keeps m
  pub same_db : (w : World F) → (m w).1.db ≡ w.db

module _ {F : Type 0} where
  pub Reads-pure : {A : Type 0} (a : A) → Reads {F = F} (pure a)
  Reads-pure a = record { sends_nothing = Keeps-pure a; same_db = λ w. refl }

  pub Reads-raise : {A : Type 0} (e : Error) → Reads {F = F} {A = A} (raise e)
  Reads-raise e = record { sends_nothing = Keeps-raise e; same_db = λ w. refl }

  pub Reads-gets : {A : Type 0} (f : World F → A) → Reads {F = F} (gets f)
  Reads-gets f = record { sends_nothing = record { kept = λ w. refl }; same_db = λ w. refl }

  -- A query: a statement and what is read then.
  pub Reads-query :
      {A : Type 0} (f : Unit {0} → M F A) → ((u : Unit {0}) → Reads (f u)) → Reads (tx_call >>= f)
  Reads-query f h = record {
    sends_nothing = Keeps-bind _ _ Keeps-tx_call (λ u. (h u).sends_nothing);
    same_db = λ w. elim (tx_call-error w) [
      | inl e ↦ rw e ((h tt).same_db (tx_call w).1 ∙ tx_call-db w)
      | inr e ↦ rw e (tx_call-db w)
    ];
  }

  -- A query that gives a result has read it.
  pub query-ok :
      {A : Type 0} (f : Unit {0} → M F A) (w : World F) (a : A)
      → ((tx_call >>= f) w).0 ≡ ok a
      → (f tt (tx_call w).1).0 ≡ ok a
  query-ok {A} f w a = go (tx_call w).0 (tx_call w).1
    where
      go : (r : Result (Unit {0})) (u : World F) → (continue r f u).0 ≡ ok a → (f tt u).0 ≡ ok a
      go (ok _) u h = h
      go (err e) u h = cc

module _ {F X : Type 0} (out : Str → X → Outgoing) where
  pub record Once {A : Type 0} (p : X → Type 0) (m : M F A) : Type 0 where
    pub once : (w : World F) → One out p w.outbox (m w).1.outbox

  pub Once-impl :
      {A : Type 0} (p q : X → Type 0) {m : M F A} → ((x : X) → p x → q x) → Once p m → Once q m
  Once-impl p q f h = record { once = λ w. One-with out p q _ _ f (h.once w) }

  module _ {A B : Type 0} (p : X → Type 0) (m : M F A) (f : A → M F B) where
    pub Once-behind : Keeps m → ((a : A) → Once p (f a)) → Once p (m >>= f)
    Once-behind hm hf = record { once = λ w. go w (m w).0 (m w).1 (hm.kept w) }
      where
        go :
            (w : World F) (r : Result A) (u : World F)
            → u.outbox ≡ w.outbox
            → One out p w.outbox (continue r f u).1.outbox
        go w (ok a) u e = One-from out p _ _ _ e ((hf a).once u)
        go w (err x) u e = inl e

    pub Once-ahead : Once p m → ((a : A) → Keeps (f a)) → Once p (m >>= f)
    Once-ahead hm hf = record { once = λ w. go w (m w).0 (m w).1 (hm.once w) }
      where
        go :
            (w : World F) (r : Result A) (u : World F)
            → One out p w.outbox u.outbox
            → One out p w.outbox (continue r f u).1.outbox
        go w (ok a) u h = One-to out p _ _ _ ((hf a).kept u) h
        go w (err x) u h = h

  -- The same on worlds with these tables.
  pub record OnceIn {A : Type 0} (d : Db F) (p : X → Type 0) (m : M F A) : Type 0 where
    pub once_in : (w : World F) → w.db ≡ d → One out p w.outbox (m w).1.outbox

  pub OnceIn-Once : {A : Type 0} (d : Db F) (p : X → Type 0) {m : M F A} → Once p m → OnceIn d p m
  OnceIn-Once d p h = record { once_in = λ w e. h.once w }

  pub OnceIn-behind :
      {A B : Type 0} (d : Db F) (p : X → Type 0) (m : M F A) (f : A → M F B)
      → Reads m
      → ((w : World F) (a : A) → w.db ≡ d → (m w).0 ≡ ok a → OnceIn d p (f a))
      → OnceIn d p (m >>= f)
  OnceIn-behind {A} d p m f hm hf = record {
    once_in =
        λ w e. go w (m w).0 (m w).1 e (hm.sends_nothing.kept w) (hm.same_db w) (λ a h. hf w a e h);
  }
    where
      go :
          (w : World F) (r : Result A) (u : World F)
          → w.db ≡ d
          → u.outbox ≡ w.outbox
          → u.db ≡ w.db
          → ((a : A) → r ≡ ok a → OnceIn d p (f a))
          → One out p w.outbox (continue r f u).1.outbox
      go w (ok a) u e k same h = One-from out p _ _ _ k ((h a refl).once_in u (same ∙ e))
      go w (err x) u e k same h = inl k
