-- ===== src/DataSync/Checked.antt =====
-- When the validation of the sync data finds no error.
use cluster_authentication_o.Base.{String, ◌≡◌, List, [], some, Error, ok, lookup}
use cluster_authentication_o.DataSync.Validation.{Crypto}
use cluster_authentication_o.DataSync.SyncData.{SourceData, SyncData}
use cluster_authentication_o.DataSync.Sources.{validator_of, Listers, answer_of}

-- The source exists, has its key, and its value passes the key's validator.
pub record IsValid (crypto : Crypto) (listers : Listers) (s : SourceData) : Type 0 where
  pub entries : List (String × String)
  pub value : String
  pub validator : String → List Error
  pub listed : answer_of listers s ≡ ok entries
  pub found : lookup s.key entries ≡ some value
  pub known : validator_of crypto s.key ≡ some validator
  pub passes : validator value ≡ []

module _ (crypto : Crypto) (listers : Listers) where
  abbrev IsValidEntry : String × SourceData → Type 0
  IsValidEntry entry = IsValid crypto listers entry.1
