-- ===== src/Daemon/Approvals/Notices.antt =====
-- Who is notified of a pending request, and when (internal/daemon/loop.go, `(*loop).approvals`).
use reinstate.Base.{
  ℕ, suc, ◌+◌, ◌≡◌, refl, ◌∙◌, ap, Bool, true, false, ◌&&◌, ◌||◌, String, none, List, [], ◌∷◌, ◌++◌,
  all, arith, ◌==◌, string_eq, ==_refl, ==_iff, contains, if◌then◌else◌,
}
use reinstate.Daemon.Model.{
  PendingApproval, PendingRevocation, Device, Effect, wrote, notified, observed, Loop,
}
use reinstate.Daemon.Actions.{Readings, write_status, observe}
use reinstate.Daemon.Approvals.{
  Request, notify, announce, retain, listed, requests, keys, settle_approvals,
}

notify-seen : (r : Request) (l : Loop) → (notify r l).seen ≡ l.seen
unfolding notify observe
notify-seen r l = ground arith

announce-seen :
    (rs : List Request) (l : Loop) (k : String)
    → contains (announce rs l).seen k ≡ (contains l.seen k || contains (keys rs) k)
unfolding announce
announce-seen [] l k = ground arith
announce-seen (r ∷ rs) l k =
    let l' = record l { seen = r.key ∷ l.seen } in
    ground (
      arith,
      announce-seen rs l k,
      announce-seen rs (notify r l') k,
      notify-seen r l',
      ==_iff r.key k,
    )

retain-contains :
    (current ids : List String) (k : String)
    → contains (retain current ids) k ≡ (contains current k && contains ids k)
unfolding retain
retain-contains current [] k = ground arith
retain-contains current (id ∷ ids) k = ground (arith, retain-contains current ids k, ==_iff id k)

module _ (t : Readings) (pending : List PendingApproval) (revocations : List PendingRevocation)
    (devices : List Device) where
  -- After a poll that the control plane answered, the daemon remembers exactly the requests that
  -- the answer lists: a request that is gone is forgotten, so it would be notified again.
  pub settle_approvals-seen :
      (l : Loop) (k : String)
      → contains (settle_approvals t (listed pending revocations devices) l).seen k
        ≡ contains (keys (requests pending revocations)) k
  unfolding settle_approvals write_status observe
  settle_approvals-seen l k =
      let rs = requests pending revocations in
      let l' = record l {
        status = record l.status {
          approvals_at = t.finished;
          approvals_error = "";
          pending = pending;
          pending_revocations = revocations;
          devices = devices;
        };
      } in
      ground (arith, announce-seen rs l' k, retain-contains (keys rs) (announce rs l').seen k)

-- How many OS notifications the effects hold, and whether one is among them.
abbrev pub notices : List Effect → ℕ
notices [] = 0
notices (notified title body ∷ es) = suc (notices es)
notices (_ ∷ es) = notices es

abbrev pub told : Request → List Effect → Bool
told r [] = false
told r (notified title body ∷ es) = title == r.title && body == r.body || told r es
told r (_ ∷ es) = told r es

notices-append : (es fs : List Effect) → notices (es ++ fs) ≡ notices es + notices fs
notices-append [] fs = omega arith
notices-append (notified title body ∷ es) fs = omega (arith, notices-append es fs)
notices-append (wrote s ∷ es) fs = notices-append es fs
notices-append (observed kind err ∷ es) fs = notices-append es fs

told-append : (r : Request) (es fs : List Effect) → told r (es ++ fs) ≡ (told r es || told r fs)
told-append r [] fs = refl
told-append r (notified title body ∷ es) fs = ground (arith, told-append r es fs)
told-append r (wrote s ∷ es) fs = told-append r es fs
told-append r (observed kind err ∷ es) fs = told-append r es fs

announce-eq_of_seen :
    (rs : List Request) (l : Loop) → all (λ r. contains l.seen r.key) rs ≡ true → announce rs l ≡ l
unfolding announce
announce-eq_of_seen [] l h = refl
announce-eq_of_seen (r ∷ rs) l h = ground (arith, announce-eq_of_seen rs l)

all_of_keys :
    (f : String → Bool) (rs : List Request)
    → ((k : String) → contains (keys rs) k ≡ true → f k ≡ true)
    → all (λ r. f r.key) rs ≡ true
all_of_keys f [] h = refl
all_of_keys f (r ∷ rs) h =
    ground (arith, h r.key, ==_refl r.key, all_of_keys f rs (λ k p. h k (ground arith)))

notices-observe :
    (kind : String) (l : Loop) → notices (observe kind none l).effects ≡ notices l.effects
unfolding observe
notices-observe kind l = ground (arith, notices-append l.effects (observed kind none ∷ []))

notices-write_status :
    (now : ℕ) (l : Loop) → notices (write_status now l).effects ≡ notices l.effects
unfolding write_status
notices-write_status now l =
    ground (arith, notices-append l.effects (wrote (record l.status { updated_at = now }) ∷ []))

-- A poll that lists only requests that were seen notifies nobody.
settle_approvals_quiet :
    (t : Readings) (pending : List PendingApproval) (revocations : List PendingRevocation)
    (devices : List Device) (l : Loop)
    → all (λ r. contains l.seen r.key) (requests pending revocations) ≡ true
    → notices (settle_approvals t (listed pending revocations devices) l).effects
      ≡ notices l.effects
unfolding settle_approvals
settle_approvals_quiet t pending revocations devices l h =
    rw (notices-observe, notices-write_status)
      (ap (λ (m : Loop). notices m.effects)
        (announce-eq_of_seen (requests pending revocations) _ h))

-- A second poll with the same requests notifies nobody again, whatever devices are listed.
pub settle_approvals_again :
    (t t' : Readings) (pending : List PendingApproval) (revocations : List PendingRevocation)
    (devices devices' : List Device) (l : Loop)
    → let l' = settle_approvals t (listed pending revocations devices) l in
      notices (settle_approvals t' (listed pending revocations devices') l').effects
      ≡ notices l'.effects
settle_approvals_again t t' pending revocations devices devices' l =
    let l' = settle_approvals t (listed pending revocations devices) l in
    settle_approvals_quiet t' pending revocations devices' l' (
      all_of_keys (contains l'.seen) (requests pending revocations)
        (λ k h. settle_approvals-seen t pending revocations devices l k ∙ h))

announce-append :
    (xs ys : List Request) (l : Loop) → announce (xs ++ ys) l ≡ announce ys (announce xs l)
unfolding announce
announce-append [] ys l = refl
announce-append (x ∷ xs) ys l =
    announce-append xs ys
      (if contains l.seen x.key then l else notify x (record l { seen = x.key ∷ l.seen }))

notify-has_notifier : (r : Request) (l : Loop) → (notify r l).opts ≡ l.opts
unfolding notify observe
notify-has_notifier r l = ground arith

announce-opts : (rs : List Request) (l : Loop) → (announce rs l).opts ≡ l.opts
unfolding announce
announce-opts [] l = refl
announce-opts (r ∷ rs) l =
    let l' = record l { seen = r.key ∷ l.seen } in
    ground (arith, announce-opts rs l, announce-opts rs (notify r l'), notify-has_notifier r l')

told-notify :
    (r s : Request) (l : Loop) → told r l.effects ≡ true → told r (notify s l).effects ≡ true
unfolding notify observe
told-notify r s l h =
    let es = l.effects ++ (notified s.title s.body ∷ []) in
    ground (
      arith,
      told-append r l.effects (notified s.title s.body ∷ []),
      told-append r es (observed "notify" none ∷ []),
    )

told-announce :
    (r : Request) (rs : List Request) (l : Loop)
    → told r l.effects ≡ true
    → told r (announce rs l).effects ≡ true
unfolding announce
told-announce r [] l h = h
told-announce r (s ∷ rs) l h =
    let l' = record l { seen = s.key ∷ l.seen } in
    ground (arith, told-announce r rs l, told-announce r rs (notify s l'), told-notify r s l')

told-notify_self :
    (r : Request) (l : Loop) → l.opts.has_notifier ≡ true → told r (notify r l).effects ≡ true
unfolding notify observe
told-notify_self r l h =
    let es = l.effects ++ (notified r.title r.body ∷ []) in
    ground (
      arith,
      told-append r l.effects (notified r.title r.body ∷ []),
      told-append r es (observed "notify" none ∷ []),
      ==_refl r.title,
      ==_refl r.body,
    )

announce-cons_new :
    (r : Request) (rs : List Request) (l : Loop)
    → contains l.seen r.key ≡ false
    → announce (r ∷ rs) l ≡ announce rs (notify r (record l { seen = r.key ∷ l.seen }))
unfolding announce
announce-cons_new r rs l h = ground arith

told-announce_self :
    (r : Request) (rs : List Request) (l : Loop)
    → l.opts.has_notifier ≡ true
    → contains l.seen r.key ≡ false
    → told r (announce (r ∷ rs) l).effects ≡ true
told-announce_self r rs l n h =
    let l' = record l { seen = r.key ∷ l.seen } in
    rw (announce-cons_new r rs l h) (told-announce r rs (notify r l') (told-notify_self r l' n))

-- With a notifier, every request that was not seen before is notified at its first place in the
-- list.
pub announce_new :
    (xs ys : List Request) (r : Request) (l : Loop)
    → l.opts.has_notifier ≡ true
    → contains l.seen r.key ≡ false
    → contains (keys xs) r.key ≡ false
    → told r (announce (xs ++ r ∷ ys) l).effects ≡ true
announce_new xs ys r l n h k = rw announce-append (
    told-announce_self r ys (announce xs l) (ap (λ o. o.has_notifier) (announce-opts xs l) ∙ n)
      (ground (arith, announce-seen xs l r.key)))
