-- ===== src/Users/Update.antt =====
-- `update_user` of application/user_service.py: the loop over the changes.
use sakura_embyboss.Prelude.{
  String, if◌then◌else◌, false, ◌≡◌, List, [], ◌∷◌, ◌==◌, eq_int, eq_string, eq_nat,
}
use sakura_embyboss.Database.{Emby}
use sakura_embyboss.Users.{key_name, Change, differs, apply_change}

-- Every change assigned in order, whatever the row has.
abbrev pub assign_all : Emby → List Change → Emby
assign_all u [] = u
assign_all u (c ∷ cs) = assign_all (apply_change u c) cs

-- The keys of the changes whose value is not that of the row.
abbrev pub changed_keys : Emby → List Change → List String
changed_keys u [] = []
changed_keys u (c ∷ cs) =
    let rest = changed_keys u cs in if differs u c then key_name c ∷ rest else rest

-- A dictionary has each key once.
abbrev pub Apart : String → List Change → Type 0
Apart k [] = Unit
Apart k (c ∷ cs) = ((k == key_name c) ≡ false) × Apart k cs

abbrev pub KeysDiffer : List Change → Type 0
KeysDiffer [] = Unit
KeysDiffer (c ∷ cs) = Apart (key_name c) cs × KeysDiffer cs
