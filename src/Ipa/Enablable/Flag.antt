-- ===== src/Ipa/Enablable/Flag.antt =====
-- What `enable_or_disable` queues for the state that is asked for.
use freeipa_cloud_prov.Prelude.{
  ◌≡◌, Bool, true, false, ◌||◌, some, List, [], ◌∷◌, ◌++◌, arith, if◌then◌else◌,
}
use freeipa_cloud_prov.Prelude.Lists.{is_empty}
use freeipa_cloud_prov.Dict.{get}
use freeipa_cloud_prov.Result.{ok}
use freeipa_cloud_prov.Ipa.Values.{Value, atom, bool}
use freeipa_cloud_prov.Ipa.Client.{State, enabled, method_name, enabled_, disabled_, Task}
use freeipa_cloud_prov.Ipa.Session.{Request, Entry, Run}
use freeipa_cloud_prov.Ipa.Hooks.{Client}
use freeipa_cloud_prov.Ipa.Ensure.{response_cleaned, entry}
use freeipa_cloud_prov.Ipa.Ensure.Queue.{first?, first-append}
use freeipa_cloud_prov.Ipa.Ensure.Quiet.{
  tracked, tracks-append, IsQuiet, rem-IsQuiet, add_or_mod-IsQuiet, AllQuiet,
}
use freeipa_cloud_prov.Ipa.Enablable.{
  EnableSpec, requested_flag, queue_flag, enable_or_disable, enablable_changes,
}

-- The request that brings the object to the state: it enables for `enabled`, else it disables.
abbrev pub flag_request : Client → State → List Value → Request
flag_request c s name = record {
  method = method_name c.spec (elim s [ enabled ↦ enabled_ | _ ↦ disabled_ ]);
  name = name;
  item = [];
}

module _ (c : Client) (x : EnableSpec) (t : Task) (r : Run) where
  -- Where the flag that the state asks for differs from that of the object found, one request is
  -- queued, and it enables exactly where the state is `enabled`, whatever the sense of the key. In
  -- check mode and for an object that was not found, none is.
  pub enable_or_disable_lem :
      (e : Entry) (es : List Entry) (flag : Bool) (name : List Value)
      → requested_flag x t.state ≡ some flag
      → get x.enablekey r.diffs.scalars ≡ some (atom (bool flag))
      → r.requests ≡ e ∷ es
      → c.mod_request_params t ≡ ok name
      → enable_or_disable c x t r ≡ (
        ok false,
        if is_empty e.response_cleaned || t.check_mode then r else record r {
          requests = r.requests ++ (entry "enable_or_disable" (flag_request c t.state name) ∷ []);
        },
      )
  unfolding enable_or_disable queue_flag response_cleaned
  enable_or_disable_lem e es flag name asked differs found named = ground arith

  posted-enable_or_disable : (enable_or_disable c x t r).1.posted ≡ r.posted
  unfolding enable_or_disable queue_flag response_cleaned
  posted-enable_or_disable = ground arith

  first-enable_or_disable :
      {q : Request}
      → first? r.requests ≡ some q
      → first? (enable_or_disable c x t r).1.requests ≡ some q
  unfolding enable_or_disable queue_flag response_cleaned
  first-enable_or_disable {q} h = ground (arith, first-append r.requests q)

  honest-enable_or_disable : tracked r ≡ true → tracked (enable_or_disable c x t r).1 ≡ true
  unfolding enable_or_disable queue_flag response_cleaned
  honest-enable_or_disable h = ground (arith, tracks-append r.requests)

pub enable_or_disable-IsQuiet :
    (c : Client) (x : EnableSpec) (t : Task) → IsQuiet t (enable_or_disable c x t)
enable_or_disable-IsQuiet c x t = record {
  at = posted-enable_or_disable c x t;
  first = λ r q. first-enable_or_disable c x t r;
  honest = λ r a real done. honest-enable_or_disable c x t r;
}

pub enablable_changes-AllQuiet :
    (c : Client) (x : EnableSpec) (t : Task) → AllQuiet t (enablable_changes c x t)
enablable_changes-AllQuiet c x t =
    (rem-IsQuiet c t, (add_or_mod-IsQuiet c t, (enable_or_disable-IsQuiet c x t, tt)))
