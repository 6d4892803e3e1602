-- ===== src/Roles/Follows.antt =====
-- What it means that a role follows a script of requests, and how the parts of a role do.
use mathlib.Core.List.{append_assoc, append-nil}
use live_tests.Base.{
  ◌≡◌, inl, inr, refl, sym, ap, ◌∙◌, subst, List, [], ◌∷◌, ◌++◌, Bool, true, false, ◌||◌, Option,
  none, some, Outcome, ok, panic, All, All-append, Bool-cases,
}
use live_tests.Client.{Sender}
use live_tests.Client.Handle.{IpfsClient}
use live_tests.Service.Events.{Reply}
use live_tests.Ipfs.{receive}
use live_tests.Roles.Talk.{
  Request, subscribe, record_success, Environment, Node, End, by_runner, by_libp2p, not_connected,
  done, fails, panics, awaits, Role, continue, ◌>>=◌, ◌>>◌, answered, called, call, tell, ask,
  await,
}

-- The requests whose refusal does not end a role.
abbrev pub optional : Request → Bool
optional subscribe = true
optional record_success = true
optional _ = false

-- The requests are the log and the first of the script.
module _ (env : Environment) where
  abbrev pub Accepted : Request → Type 0
  Accepted r = (env.accepts r || optional r) ≡ true

  abbrev pub PartOf : List Request → List Request → List Request → Type 0
  PartOf log script made =
      (first rest : List Request) × (script ≡ first ++ rest)
      × (made ≡ log ++ first)
      × All Accepted first

  -- The last request was refused, and it was the next of the script.
  abbrev pub Refused : List Request → List Request → List Request → Type 0
  Refused log script made =
      (first : List Request) × (r : Request) × (rest : List Request) × (script ≡ first ++ r ∷ rest)
      × (made ≡ log ++ (first ++ r ∷ []))
      × All Accepted first
      × (env.accepts r ≡ false)

  -- After the requests of the log, a role that comes to its end has made those of the script, in
  -- their order; one that does not has made the first of them; and none of them was refused, unless
  -- that ended the role.
  abbrev pub Follows : {A : Type 0} → List Request → List Request → End A → Type 0
  Follows log script (done a n) = (n.requests ≡ log ++ script) × All Accepted script
  Follows log script (fails by_runner made) = Refused log script made
  Follows log script (fails by_libp2p made) = PartOf log script made
  Follows log script (fails not_connected made) = PartOf log script made
  Follows log script (panics e made) = PartOf log script made
  Follows log script (awaits made) = PartOf log script made

  -- A part of a role follows a script after any log.
  abbrev pub Writes : {A : Type 0} → List Request → Role A → Type 0
  Writes script m = (n : Node) → Follows n.requests script (m n)

  PartOf-behind :
      (log s t made : List Request)
      → All Accepted s
      → PartOf (log ++ s) t made
      → PartOf log (s ++ t) made
  PartOf-behind log s t made all (first, rest, e, h, firsts) = (
    s ++ first,
    rest,
    ap (λ x. s ++ x) e ∙ sym (append_assoc s first rest),
    h ∙ append_assoc log s first,
    All-append Accepted s first firsts all,
  )

  Refused-behind :
      (log s t made : List Request)
      → All Accepted s
      → Refused (log ++ s) t made
      → Refused log (s ++ t) made
  Refused-behind log s t made all (first, r, rest, e, h, firsts, not_accepted) = (
    s ++ first,
    r,
    rest,
    ap (λ x. s ++ x) e ∙ sym (append_assoc s first (r ∷ rest)),
    h
        ∙ append_assoc log s (first ++ r ∷ [])
        ∙ ap (λ x. log ++ x) (sym (append_assoc s first (r ∷ []))),
    All-append Accepted s first firsts all,
    not_accepted,
  )

  PartOf-before : (log s t made : List Request) → PartOf log s made → PartOf log (s ++ t) made
  PartOf-before log s t made (first, rest, e, h, firsts) =
      (first, rest ++ t, ap (λ x. x ++ t) e ∙ append_assoc first rest t, h, firsts)

  Refused-before : (log s t made : List Request) → Refused log s made → Refused log (s ++ t) made
  Refused-before log s t made (first, r, rest, e, h, firsts, not_accepted) = (
    first,
    r,
    rest ++ t,
    ap (λ x. x ++ t) e ∙ append_assoc first (r ∷ rest) t,
    h,
    firsts,
    not_accepted,
  )

  module _ {A : Type 0} where
    -- A script goes on behind another.
    pub Follows-behind :
        (log s t : List Request) (end : End A)
        → All Accepted s
        → Follows (log ++ s) t end
        → Follows log (s ++ t) end
    Follows-behind log s t (done a n) all (e, rest) =
        (e ∙ append_assoc log s t, All-append Accepted s t rest all)
    Follows-behind log s t (fails by_runner made) all h = Refused-behind log s t made all h
    Follows-behind log s t (fails by_libp2p made) all h = PartOf-behind log s t made all h
    Follows-behind log s t (fails not_connected made) all h = PartOf-behind log s t made all h
    Follows-behind log s t (panics e made) all h = PartOf-behind log s t made all h
    Follows-behind log s t (awaits made) all h = PartOf-behind log s t made all h

  module _ {A B : Type 0} where
    Follows-continue :
        (log s t : List Request) (end : End A) (f : A → Role B)
        → Follows log s end
        → ((a : A) → Writes t (f a))
        → Follows log (s ++ t) (continue end f)
    Follows-continue log s t (done a n) f (e, all) g =
        Follows-behind log s t (f a n) all (subst (λ l. Follows l t (f a n)) e (g a n))
    Follows-continue log s t (fails by_runner made) f h g = Refused-before log s t made h
    Follows-continue log s t (fails by_libp2p made) f h g = PartOf-before log s t made h
    Follows-continue log s t (fails not_connected made) f h g = PartOf-before log s t made h
    Follows-continue log s t (panics e made) f h g = PartOf-before log s t made h
    Follows-continue log s t (awaits made) f h g = PartOf-before log s t made h

    -- One part after another.
    pub bind-Writes :
        (s t : List Request) (m : Role A) (f : A → Role B)
        → Writes s m
        → ((a : A) → Writes t (f a))
        → Writes (s ++ t) (m >>= f)
    bind-Writes s t m f h g n = Follows-continue n.requests s t (m n) f (h n) g

    -- A part that makes no request, and what comes behind it.
    pub quiet-Writes :
        (t : List Request) (m : Role A) (f : A → Role B)
        → Writes [] m
        → ((a : A) → Writes t (f a))
        → Writes t (m >>= f)
    quiet-Writes t m f h g n = Follows-continue n.requests [] t (m n) f (h n) g

  pub ask-Writes : (r : Request) → Writes (r ∷ []) (ask env r)
  ask-Writes r n = elim (Bool-cases (env.accepts r)) [
    | inl accepts ↦ rw accepts (refl, (rw accepts refl, tt))
    | inr not_accepted ↦ rw not_accepted ([], r, [], refl, refl, tt, not_accepted)
  ]

  pub tell-Writes : (r : Request) → optional r ≡ true → Writes (r ∷ []) (tell r)
  tell-Writes r may n = (
    refl,
    (
      elim (Bool-cases (env.accepts r)) [
        | inl accepts ↦ rw accepts refl
        | inr not_accepted ↦ rw (not_accepted, may) refl
      ],
      tt,
    ),
  )

  pub ask_then-Writes :
      {B : Type 0} (t : List Request) (r : Request) (k : Role B)
      → Writes t k
      → Writes (r ∷ t) (ask env r >> k)
  ask_then-Writes t r k h = bind-Writes (r ∷ []) t (ask env r) (λ _. k) (ask-Writes r) (λ _. h)

  pub tell_then-Writes :
      {B : Type 0} (t : List Request) (r : Request) (k : Role B)
      → optional r ≡ true
      → Writes t k
      → Writes (r ∷ t) (tell r >> k)
  tell_then-Writes t r k may h =
      bind-Writes (r ∷ []) t (tell r) (λ _. k) (tell-Writes r may) (λ _. h)

  -- What makes no request.
  pub nothing-PartOf : (log script : List Request) → PartOf log script log
  nothing-PartOf log script = ([], script, refl, sym (append-nil log), tt)

  pub done-Follows : {A : Type 0} (a : A) (n : Node) → Follows n.requests [] (done a n)
  done-Follows a n = (sym (append-nil n.requests), tt)

  pub called-Follows :
      {A : Type 0} (n : Node) (out : Outcome (IpfsClient × A))
      → Follows n.requests [] (called n out)
  called-Follows n (ok (c, a)) = (sym (append-nil n.requests), tt)
  called-Follows n (panic e) = nothing-PartOf n.requests []

  pub call-Writes : {A : Type 0} (f : IpfsClient → Outcome (IpfsClient × A)) → Writes [] (call f)
  call-Writes f n = called-Follows n (f n.ipfs.client)

  answered-Follows : (n : Node) (o : Option (Outcome Reply)) → Follows n.requests [] (answered n o)
  answered-Follows n none = nothing-PartOf n.requests []
  answered-Follows n (some (ok r)) = done-Follows r n
  answered-Follows n (some (panic e)) = nothing-PartOf n.requests []

  pub await-Writes : (k : Sender) → Writes [] (await env k)
  await-Writes k n =
      let ipfs = env.meanwhile n.ipfs in
      answered-Follows (record n { ipfs = ipfs }) (receive k ipfs)
