-- ===== src/Secrets/Tests.antt =====
-- A token stored beside an older file, under a cipher that tags its text.
use connect_manager.Prelude.{◌≡◌, refl, ap, String, List, [], ◌∷◌, none, some}
use connect_manager.Db.Table.{ok}
use connect_manager.Text.Framed.{onto, texts, texts-onto}
use connect_manager.Credentials.Tagging.{tagging}
use connect_manager.Secrets.{Dict, Outside, Vault, set_secret, get_secret}
use connect_manager.Secrets.Kept.{get-set_secret}

abbrev paired : List String → Dict
paired [] = []
paired (k ∷ []) = []
paired (k ∷ v ∷ ts) = (k, v) ∷ paired ts

abbrev dumps : Dict → String
dumps [] = ""
dumps ((k, v) ∷ d) = onto k (onto v (dumps d))

paired-texts : (d : Dict) → paired (texts (dumps d)) ≡ d
paired-texts [] = refl
paired-texts ((k, v) ∷ d) =
    rw (texts-onto k (onto v (dumps d)), texts-onto v (dumps d))
      (ap (λ e. (k, v) ∷ e) (paired-texts d))

abbrev outside : Outside
outside = record {
  fernet = some tagging;
  dumps = dumps;
  loads = λ s. some (paired (texts s));
  override = λ k. none;
  loads-dumps = λ d. ap some (paired-texts d);
}

abbrev vault : Vault
vault = record { file = none; legacy = some (dumps (("old", "kept") ∷ [])); nonce = 0 }

get-set_secret_example :
    ((set_secret outside "new" "token" vault).0 ≡ ok tt)
    × (get_secret outside "new" (set_secret outside "new" "token" vault).1
        ≡ (some "token", (set_secret outside "new" "token" vault).1))
    × ((get_secret outside "old" (set_secret outside "new" "token" vault).1).0
        ≡ (get_secret outside "old" vault).0)
get-set_secret_example =
    get-set_secret outside tagging refl "new" "token" "old" vault refl refl refl
