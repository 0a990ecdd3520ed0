-- ===== src/Products.antt =====
-- `CommerceService` of application/commerce_service.py: the recharge products. `now` is the clock
-- reading of a call.
use sakura_embyboss.Prelude.{
  ℤ, pos, ◌+ℤ◌, ◌+◌, String, Bool, false, not, Option, none, some, List, [], ◌∷◌, map, ◌==◌, eq_int,
  eq_string, if◌then◌else◌, first, replace, str_int,
}
use sakura_embyboss.Exec.{Exec, pure, raise, gets, modify, transaction, runtime_error, ◌>>=◌, ◌>>◌}
use sakura_embyboss.Database.{
  Db, DateTime, Value, flag, num, text, time, Fields, Actor, RechargeProduct,
}
use sakura_embyboss.Operations.{audit, event}
use sakura_embyboss.Codes.{text_value}

abbrev pub is_product : ℤ → RechargeProduct → Bool
is_product id p = p.id == id

-- `CommerceRepository.get_product`
abbrev pub get_product : ℤ → Db → Option RechargeProduct
get_product id db = first (is_product id) db.products

unfoldable pub serialize_product : RechargeProduct → Fields
serialize_product row =
    ("id", num row.id)
    ∷ ("name", text row.name)
    ∷ ("description", text_value row.description)
    ∷ ("amount_cents", num row.amount_cents)
    ∷ ("coins", num row.coins)
    ∷ ("bonus_coins", num row.bonus_coins)
    ∷ ("enabled", flag row.enabled)
    ∷ ("sort_order", num row.sort_order)
    ∷ ("revision", num row.revision)
    ∷ ("created_at", time row.created_at)
    ∷ ("updated_at", time row.updated_at)
    ∷ []

-- The fields of `RechargeProduct(**data)` at its creation.
pub record ProductData : Type 0 where
  pub name : String
  pub description : Option String
  pub amount_cents : ℤ
  pub coins : ℤ
  pub bonus_coins : ℤ
  pub enabled : Bool
  pub sort_order : ℤ

unfoldable pub create_product : ProductData → Actor → DateTime → Exec Db Fields
unfolding audit event
create_product d actor now = transaction do
  n ← gets (λ db. db.next_product)
  let row : RechargeProduct = record {
    id = pos n;
    name = d.name;
    description = d.description;
    amount_cents = d.amount_cents;
    coins = d.coins;
    bonus_coins = d.bonus_coins;
    enabled = d.enabled;
    sort_order = d.sort_order;
    revision = pos 1;
    created_at = now;
    updated_at = now;
  }
  modify (λ (s : Db). record s { products = row ∷ s.products; next_product = n + 1 })
  audit actor "billing.product.create" "recharge_product" (some (str_int (pos n))) "success" (
      some (
        ("name", text d.name) ∷ ("amount_cents", num d.amount_cents) ∷ ("coins", num d.coins) ∷ []))
  event "billing.product.created" "recharge_product" (some (str_int (pos n)))
      (("name", text d.name) ∷ [])
  pure (serialize_product row)

-- An entry of the `data` of `update_product`.
pub data ProductChange : Type 0 where
  set_name : String → ProductChange
  set_description : Option String → ProductChange
  set_amount_cents set_coins set_bonus_coins set_sort_order : ℤ → ProductChange
  set_enabled : Bool → ProductChange

abbrev pub change_field : ProductChange → String × Value
change_field (set_name s) = ("name", text s)
change_field (set_description s) = ("description", text_value s)
change_field (set_amount_cents n) = ("amount_cents", num n)
change_field (set_coins n) = ("coins", num n)
change_field (set_bonus_coins n) = ("bonus_coins", num n)
change_field (set_sort_order n) = ("sort_order", num n)
change_field (set_enabled b) = ("enabled", flag b)

-- `setattr(row, field, data[field])`
abbrev pub set_field : ProductChange → RechargeProduct → RechargeProduct
set_field (set_name s) row = record row { name = s }
set_field (set_description s) row = record row { description = s }
set_field (set_amount_cents n) row = record row { amount_cents = n }
set_field (set_coins n) row = record row { coins = n }
set_field (set_bonus_coins n) row = record row { bonus_coins = n }
set_field (set_sort_order n) row = record row { sort_order = n }
set_field (set_enabled b) row = record row { enabled = b }

unfoldable pub set_fields : List ProductChange → RechargeProduct → RechargeProduct
set_fields [] row = row
set_fields (c ∷ cs) row = set_fields cs (set_field c row)

-- `revision is not None and revision != row.revision`
abbrev pub is_outdated : Option ℤ → RechargeProduct → Bool
is_outdated none row = false
is_outdated (some r) row = not (r == row.revision)

unfoldable pub write_product :
    RechargeProduct → ℤ → List ProductChange → Actor → DateTime → Exec Db (Option Fields)
unfolding audit event set_fields
write_product row product_id changes actor now = do
  let row' = record (set_fields changes row) { revision = row.revision +ℤ pos 1; updated_at = now }
  modify (λ (s : Db). record s { products = replace (is_product row.id) row' s.products })
  audit actor "billing.product.update" "recharge_product" (some (str_int product_id)) "success"
      (some (map change_field changes))
  event "billing.product.updated" "recharge_product" (some (str_int product_id))
      (map change_field changes)
  pure (some (serialize_product row'))

-- `update_product`; `revision` is the entry of `data` under that key.
unfoldable pub update_product :
    ℤ → Option ℤ → List ProductChange → Actor → DateTime → Exec Db (Option Fields)
update_product product_id revision changes actor now = transaction do
  found ← gets (get_product product_id)
  elim found [
    | none ↦ pure none
    | some row ↦
        if is_outdated revision row
        then raise runtime_error
        else write_product row product_id changes actor now
  ]
