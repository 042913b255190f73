-- ===== src/Message/Dispatch.antt =====
-- add_msg_cb of include/msg_dispatcher.h: which callback a message id has.
use mathlib.Core.Bool.{false≢true}
use easy_reactor.Base.{
  ap, ◌∙◌, sym, ℕ, ◌≡◌, refl, List, [], ◌∷◌, Option, none, some, Option-cases, inl, inr, arith,
  ◌==◌, eq-cases, ==_ne, ==_refl, subst, if◌then◌else◌, true, false,
}
use easy_reactor.Message.{MsgDispatcher, new_dispatcher, add_msg_cb, is_some}

-- Each id with a callback has an argument.
abbrev pub IsPaired : MsgDispatcher → Type 0
IsPaired d = (k f : ℕ) → d.dispatcher k ≡ some f → (a : ℕ) × (d.args k ≡ some a)

-- A call of add_msg_cb: the id, the callback and its argument.
pub record Registration : Type 0 where
  pub cmdid : ℕ
  pub msg_cb : ℕ
  pub usr_data : ℕ

-- The calls in turn.
unfoldable pub register : List Registration → MsgDispatcher → MsgDispatcher
register [] d = d
register (r ∷ rs) d = register rs (add_msg_cb d r.cmdid r.msg_cb r.usr_data).1

-- The first call for an id.
unfoldable pub first_for : ℕ → List Registration → Option Registration
first_for k [] = none
first_for k (r ∷ rs) = if r.cmdid == k then some r else first_for k rs

abbrev pub callback_of : Option Registration → Option ℕ
callback_of none = none
callback_of (some r) = some r.msg_cb

abbrev pub argument_of : Option Registration → Option ℕ
argument_of none = none
argument_of (some r) = some r.usr_data

abbrev or_else : Option ℕ → Option ℕ → Option ℕ
or_else none b = b
or_else (some a) b = some a

-- The dispatcher has a callback and an argument for the same ids.
abbrev IsTwin : MsgDispatcher → Type 0
IsTwin d = (k : ℕ) → is_some (d.args k) ≡ is_some (d.dispatcher k)

-- One call, on the ids that it is not for and on the one that it is for.
add_other :
    (d : MsgDispatcher) (r : Registration) (k : ℕ)
    → (r.cmdid == k) ≡ false
    → ((add_msg_cb d r.cmdid r.msg_cb r.usr_data).1.dispatcher k ≡ d.dispatcher k)
      × ((add_msg_cb d r.cmdid r.msg_cb r.usr_data).1.args k ≡ d.args k)
unfolding add_msg_cb
add_other d r k other = elim (Option-cases (d.dispatcher r.cmdid)) [
  | inl e ↦ (rw (e, add_msg_cb, other) refl, rw (e, add_msg_cb, other) refl)
  | inr (f, e) ↦ (rw (e, add_msg_cb) refl, rw (e, add_msg_cb) refl)
]

add_own :
    (d : MsgDispatcher) (r : Registration)
    → IsTwin d
    → ((add_msg_cb d r.cmdid r.msg_cb r.usr_data).1.dispatcher r.cmdid
        ≡ or_else (d.dispatcher r.cmdid) (some r.msg_cb))
      × ((add_msg_cb d r.cmdid r.msg_cb r.usr_data).1.args r.cmdid
          ≡ or_else (d.args r.cmdid) (some r.usr_data))
unfolding add_msg_cb
add_own d r twin = elim (Option-cases (d.dispatcher r.cmdid)) [
  | inl e ↦
      let none_too : d.args r.cmdid ≡ none =
        none_of (d.args r.cmdid) (twin r.cmdid ∙ ap is_some e) in
      (rw (e, add_msg_cb, ==_refl r.cmdid) refl, rw (e, add_msg_cb, ==_refl r.cmdid, none_too) refl)
  | inr (f, e) ↦
      let (a, at) = some_of (d.args r.cmdid) (twin r.cmdid ∙ ap is_some e) in
      (rw (e, add_msg_cb, e) refl, rw (e, add_msg_cb, at) refl)
]
  where
    none_of : (o : Option ℕ) → is_some o ≡ false → o ≡ none
    none_of none e = refl
    none_of (some a) e = absurd (false≢true (sym e))

    some_of : (o : Option ℕ) → is_some o ≡ true → (a : ℕ) × (o ≡ some a)
    some_of none e = absurd (false≢true e)
    some_of (some a) e = (a, refl)

add_same :
    (d : MsgDispatcher) (r : Registration) (k : ℕ)
    → IsTwin d
    → r.cmdid ≡ k
    → ((add_msg_cb d r.cmdid r.msg_cb r.usr_data).1.dispatcher k
        ≡ or_else (d.dispatcher k) (some r.msg_cb))
      × ((add_msg_cb d r.cmdid r.msg_cb r.usr_data).1.args k ≡ or_else (d.args k) (some r.usr_data))
add_same d r k twin same =
    subst
      (λ n.
        ((add_msg_cb d r.cmdid r.msg_cb r.usr_data).1.dispatcher n
          ≡ or_else (d.dispatcher n) (some r.msg_cb))
        × ((add_msg_cb d r.cmdid r.msg_cb r.usr_data).1.args n
            ≡ or_else (d.args n) (some r.usr_data)))
      same (add_own d r twin)

is_some-or_else : (o : Option ℕ) (a : ℕ) → is_some (or_else o (some a)) ≡ true
is_some-or_else none a = refl
is_some-or_else (some b) a = refl

add-IsTwin :
    (d : MsgDispatcher) (r : Registration)
    → IsTwin d
    → IsTwin (add_msg_cb d r.cmdid r.msg_cb r.usr_data).1
add-IsTwin d r twin k = elim (eq-cases r.cmdid k) [
  | inl same ↦
      let (cb, arg) = add_same d r k twin same in
      ap is_some arg ∙ is_some-or_else _ _ ∙ sym (ap is_some cb ∙ is_some-or_else _ _)
  | inr other ↦
      let (cb, arg) = add_other d r k (==_ne r.cmdid k other) in
      ap is_some arg ∙ twin k ∙ sym (ap is_some cb)
]

or_else-some : (o b : Option ℕ) (a : ℕ) → or_else (or_else o (some a)) b ≡ or_else o (some a)
or_else-some none b a = refl
or_else-some (some c) b a = refl

register_runs :
    (rs : List Registration) (d : MsgDispatcher) (k : ℕ)
    → IsTwin d
    → ((register rs d).dispatcher k ≡ or_else (d.dispatcher k) (callback_of (first_for k rs)))
      × ((register rs d).args k ≡ or_else (d.args k) (argument_of (first_for k rs)))
unfolding register first_for
register_runs [] d k twin = (or_none (d.dispatcher k), or_none (d.args k))
  where
    or_none : (o : Option ℕ) → o ≡ or_else o none
    or_none none = refl
    or_none (some a) = refl
register_runs (r ∷ rs) d k twin =
    let (cbs, args) =
      register_runs rs (add_msg_cb d r.cmdid r.msg_cb r.usr_data).1 k (add-IsTwin d r twin) in
    elim (eq-cases r.cmdid k) [
      | inl same ↦
          let (cb, arg) = add_same d r k twin same in
          let hit : (r.cmdid == k) ≡ true = ground (arith, same) in
          rw hit (
            cbs
                ∙ ap (λ o. or_else o (callback_of (first_for k rs))) cb
                ∙ or_else-some (d.dispatcher k) (callback_of (first_for k rs)) r.msg_cb,
            args
                ∙ ap (λ o. or_else o (argument_of (first_for k rs))) arg
                ∙ or_else-some (d.args k) (argument_of (first_for k rs)) r.usr_data,
          )
      | inr other ↦
          let (cb, arg) = add_other d r k (==_ne r.cmdid k other) in
          rw (==_ne r.cmdid k other) (
            cbs ∙ ap (λ o. or_else o (callback_of (first_for k rs))) cb,
            args ∙ ap (λ o. or_else o (argument_of (first_for k rs))) arg,
          )
    ]

pub add_msg_cb-IsPaired :
    (d : MsgDispatcher) (cmdid msg_cb usr_data : ℕ)
    → IsPaired d
    → IsPaired (add_msg_cb d cmdid msg_cb usr_data).1
unfolding add_msg_cb
add_msg_cb-IsPaired d cmdid msg_cb usr_data paired = elim (Option-cases (d.dispatcher cmdid)) [
  | inr (f, e) ↦ rw (e, add_msg_cb) paired
  | inl e ↦
      rw (e, add_msg_cb)
        (λ k f at. elim (eq-cases cmdid k) [
          | inl same ↦ (usr_data, ground (arith, same))
          | inr other ↦
              let (a, here) = paired k f (ground (arith, at, other)) in (a, ground (arith, here))
        ])
]

-- After any calls of add_msg_cb on a new dispatcher, each id has the callback of the first call for it,
-- with the argument of that same call, and no other id has one.
pub register_correct :
    (rs : List Registration) (k : ℕ)
    → ((register rs new_dispatcher).dispatcher k ≡ callback_of (first_for k rs))
      × ((register rs new_dispatcher).args k ≡ argument_of (first_for k rs))
unfolding new_dispatcher
register_correct rs k = register_runs rs new_dispatcher k (λ n. refl)

pub new_dispatcher-IsPaired : IsPaired new_dispatcher
unfolding new_dispatcher
new_dispatcher-IsPaired k f e = cc
