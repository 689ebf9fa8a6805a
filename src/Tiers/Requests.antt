-- ===== src/Tiers/Requests.antt =====
-- The requests on tiers and repos, and what holds after each.
use morsel.Prelude.{ℕ, Bool, Option, String}
use morsel.Tiers.Tables.{Store, Limits, Faults}
use morsel.Tiers.Handlers.{
  create_tier, update_tier, remove_tier, change_default_tier, update_repo_tier, admit_app,
}
use morsel.Auth.Claims.{Claims}

pub data Request : Type 0 where
  create : String → Limits → Request
  update : String → Limits → Request
  delete : String → Request
  set_default : String → Request
  assign : String → String → Request
  admit : Option Claims → String → String → String → Request

-- The store after a request of an operator or of another caller.
unfoldable pub serve : Bool → Faults → ℕ → Request → Store → Store
unfolding create_tier update_tier remove_tier change_default_tier update_repo_tier admit_app
serve operator f now (create name l) s = (create_tier operator now name l s).0
serve operator f now (update name l) s = (update_tier operator now name l s).0
serve operator f now (delete name) s = (remove_tier operator name s).0
serve operator f now (set_default name) s = (change_default_tier operator now name s).0
serve operator f now (assign slug tier) s = (update_repo_tier operator slug tier s).0
serve operator f now (admit claims org repo name) s = (admit_app f claims org repo name s).0
