-- ===== src/Admin/Views.antt =====
-- internal/admin/store.go and dto.go: what the store shows of its copy in memory.
use shadraw.Base.{
  ℕ, ◌≤◌, String, ◌≡◌, ◌≢◌, refl, Bool, true, false, not, List, ◌++◌, str_eq, eq_iff, arith, length,
  if◌then◌else◌,
}
use shadraw.Crypto
use shadraw.Crypto.{Bytes, stars}
use shadraw.Crypto.Masking.{mask_api_key-ends}
use shadraw.Admin.{Cache, Text, site_title_or_default}

pub record UpstreamConfigDto : Type 0 where
  pub base_url : String
  pub api_key_masked : String
  pub api_key_set : Bool
  pub enabled_models : List String
  pub worker_concurrency : ℕ

pub record AppConfigDto : Type 0 where
  pub enabled_models : List String
  pub site_title : String

abbrev pub enabled_models : Cache → List String
enabled_models c = c.cached.enabled_models

abbrev pub worker_concurrency : Cache → ℕ
worker_concurrency c = c.cached.worker_concurrency

module _ (texts : Text) where
  abbrev pub app_config : Cache → AppConfigDto
  app_config c = record {
    enabled_models = c.cached.enabled_models;
    site_title = site_title_or_default texts c.cached.site_title;
  }

  abbrev pub site_config : Cache → String
  site_config c = site_title_or_default texts c.cached.site_title

  -- The masked key is left empty where no key is set.
  unfoldable pub view : Cache → UpstreamConfigDto
  view c =
      let unset = str_eq c.api_key "" in
      record {
        base_url = c.cached.base_url;
        api_key_masked =
            if unset then "" else texts.to_text (Crypto.mask_api_key (texts.to_bytes c.api_key));
        api_key_set = not unset;
        enabled_models = c.cached.enabled_models;
        worker_concurrency = c.cached.worker_concurrency;
      }

  -- The view of a key of at least twelve bytes shows that it is set and the four bytes at each end,
  -- and nothing between them.
  pub view-masked :
      (c : Cache) (a middle b : Bytes)
      → c.api_key ≢ ""
      → texts.to_bytes c.api_key ≡ a ++ (middle ++ b)
      → length a ≡ 4
      → length b ≡ 4
      → 4 ≤ length middle
      → ((view c).api_key_set ≡ true)
        × ((view c).api_key_masked ≡ texts.to_text (a ++ (stars ++ b)))
  unfolding view
  view-masked c a middle b given bytes ea eb em =
      let set : str_eq c.api_key "" ≡ false = ground (arith, eq_iff c.api_key "") in
      rw (set, bytes, mask_api_key-ends a middle b ea eb em) (refl, refl)
