-- ===== src/Loop/Watch.antt =====
-- add_ioev and del_ioev of src/event_loop.cc against the interest list of epoll.
use easy_reactor.Base.{
  Bool-cases, ap, ℕ, ◌≡◌, ◌∙◌, List, [], ◌∷◌, Option, none, some, Bool, true, false, arith, ◌==◌,
  if◌then◌else◌, Option-cases, inl, inr,
}
use easy_reactor.Base.Table.{Table}
use easy_reactor.Loop.{
  Mask, Ctl, ctl_add, ctl_mod, ctl_del, EventLoop, IoEvent, add_ioev, del_ioev_mask, del_ioev,
  mask_or, mask_without, is_empty,
}

-- What the code relies on: the interest list behind a list of epoll_ctl calls, the newest first.
-- ADD works for a descriptor that is not in it, MOD for one that is, DEL takes one out, and each
-- leaves the others alone.
pub record Epoll : Type 0 where
  pub watch : List Ctl → Table Mask
  pub start : (k : ℕ) → watch [] k ≡ none
  pub add :
      (cs : List Ctl) (fd : ℕ) (m : Mask)
      → watch cs fd ≡ none
      → (k : ℕ) → watch (ctl_add fd m ∷ cs) k ≡ (if fd == k then some m else watch cs k)
  pub change :
      (cs : List Ctl) (fd : ℕ) (m old : Mask)
      → watch cs fd ≡ some old
      → (k : ℕ) → watch (ctl_mod fd m ∷ cs) k ≡ (if fd == k then some m else watch cs k)
  pub remove :
      (cs : List Ctl) (fd : ℕ) (k : ℕ)
      → watch (ctl_del fd ∷ cs) k ≡ (if fd == k then none else watch cs k)

abbrev pub mask_of : Option IoEvent → Option Mask
mask_of none = none
mask_of (some e) = some e.mask

abbrev pub present : Option IoEvent → Bool
present none = false
present (some e) = true

-- epoll watches exactly the descriptors of `_io_evs`, each with its mask, and `listening` holds
-- exactly these.
pub record IsMirrored (ep : Epoll) (l : EventLoop) : Type 0 where
  pub watched : (k : ℕ) → ep.watch l.ctls k ≡ mask_of (l.io_evs k)
  pub listed : (k : ℕ) → l.listening k ≡ present (l.io_evs k)

module _ (ep : Epoll) (l : EventLoop) (m : IsMirrored ep l) where
  pub add_ioev-IsMirrored :
      (fd proc : ℕ) (mask : Mask) (args : ℕ) → IsMirrored ep (add_ioev l fd proc mask args)
  unfolding add_ioev
  add_ioev-IsMirrored fd proc mask args = record {
    watched = λ k. elim (Option-cases (l.io_evs fd)) [
      | inl e ↦
          rw (e, add_ioev)
            (ep.add l.ctls fd mask (m.watched fd ∙ ap mask_of e) k ∙ ground (arith, m.watched k))
      | inr (ev, e) ↦
          rw (e, add_ioev)
            (ep.change l.ctls fd (mask_or ev.mask mask) ev.mask (m.watched fd ∙ ap mask_of e) k
              ∙ ground (arith, m.watched k))
    ];
    listed = λ k. ground (arith, m.listed k);
  }

  pub del_ioev-IsMirrored : (fd : ℕ) → IsMirrored ep (del_ioev l fd)
  unfolding del_ioev
  del_ioev-IsMirrored fd = record {
    watched = λ k. ep.remove l.ctls fd k ∙ ground (arith, m.watched k);
    listed = λ k. ground (arith, m.listed k);
  }

  pub del_ioev_mask-IsMirrored : (fd : ℕ) (mask : Mask) → IsMirrored ep (del_ioev_mask l fd mask)
  unfolding del_ioev_mask
  del_ioev_mask-IsMirrored fd mask = elim (Option-cases (l.io_evs fd)) [
    | inl e ↦ rw (e, del_ioev_mask) m
    | inr (ev, e) ↦ elim (Bool-cases (is_empty (mask_without ev.mask mask))) [
      | inl none_left ↦
          rw (e, del_ioev_mask, none_left)
            (record {
              watched = λ k. ep.remove l.ctls fd k ∙ ground (arith, m.watched k);
              listed = λ k. ground (arith, m.listed k);
            })
      | inr some_left ↦
          rw (e, del_ioev_mask, some_left)
            (record {
              watched = λ k.
                  ep.change l.ctls fd (mask_without ev.mask mask) ev.mask
                    (m.watched fd ∙ ap mask_of e) k
                  ∙ ground (arith, m.watched k);
              listed = λ k. ground (arith, m.listed k, e);
            })
    ]
  ]

-- A call on the loop's registrations.
pub data Registration : Type 0 where
  adds : ℕ → ℕ → Mask → ℕ → Registration
  drops : ℕ → Mask → Registration
  removes : ℕ → Registration

pub register : EventLoop → Registration → EventLoop
register l (adds fd proc mask args) = add_ioev l fd proc mask args
register l (drops fd mask) = del_ioev_mask l fd mask
register l (removes fd) = del_ioev l fd

pub register_all : EventLoop → List Registration → EventLoop
register_all l [] = l
register_all l (r ∷ rs) = register_all (register l r) rs

-- After any calls of add_ioev and of both del_ioev, epoll watches exactly the descriptors of
-- `_io_evs`, each with the mask there, and `listening` holds exactly these, if so before.
pub register_all-IsMirrored :
    (ep : Epoll) (l : EventLoop) (rs : List Registration)
    → IsMirrored ep l
    → IsMirrored ep (register_all l rs)
unfolding register_all register
register_all-IsMirrored ep l [] m = m
register_all-IsMirrored ep l (adds fd proc mask args ∷ rs) m =
    register_all-IsMirrored ep (add_ioev l fd proc mask args) rs
      (add_ioev-IsMirrored ep l m fd proc mask args)
register_all-IsMirrored ep l (drops fd mask ∷ rs) m =
    register_all-IsMirrored ep (del_ioev_mask l fd mask) rs
      (del_ioev_mask-IsMirrored ep l m fd mask)
register_all-IsMirrored ep l (removes fd ∷ rs) m =
    register_all-IsMirrored ep (del_ioev l fd) rs (del_ioev-IsMirrored ep l m fd)
