-- ===== src/RedEnvelope/Checks.antt =====
-- `send_red_envelope` of modules/extra/red_envelope.py for a user, case by case.
use sakura_embyboss.Prelude.{
  ◌≤◌, ℤ, pos, ◌-ℤ◌, leb_ℤ, pos_part, String, Bool, true, not, ◌||◌, ◌≡◌, refl, Option, none, some,
  ◌⊎◌, inl, inr, ◌==◌, eq_string, arith, Bool-cases,
}
use sakura_embyboss.Database.{Emby}
use sakura_embyboss.RedEnvelope.{
  private_, Group, NewEnvelope, new_envelope, create_reds, sql_update_emby, sql_get_emby, item,
}
use sakura_embyboss.RedEnvelope.Send.{
  Sender, from_user, sender_chat, Target, Command, Settings, Sent, Verified, fails, denied,
  verified, may_send, verify_balance, verify_user, extra_check, verify_red_envelope_sender, type_of,
  send_if, send_to, send_private, send_common, send_as, send_red_envelope, int_item,
  private_envelope, common_envelope,
}

abbrev pub IsUser : Sender → Type 0
IsUser (from_user tg name) = Unit
IsUser (sender_chat id own) = ⊥

is_common : (mode : Option String) → type_of mode ≡ private_ → ⊥
is_common none h = cc
is_common (some w) h = elim (Bool-cases (w == "1")) [ inl e ↦ ground arith | inr e ↦ ground arith ]

module _ (matches : String → ℤ → Bool) where
  -- A sender who passed the checks, and is charged.
  pub record Charged (money : ℤ) (extra stored : Bool) (g g' : Group) : Type 0 where
    pub tg : ℤ
    pub user : Emby
    pub iv : ℤ
    pub row : sql_get_emby matches tg g.users ≡ some user
    pub coins : user.iv ≡ some iv
    pub covered : leb_ℤ money iv ≡ true
    pub five : leb_ℤ (pos 5) money ≡ true
    pub checked : extra ≡ true
    pub result : g' ≡ sql_update_emby stored tg (iv -ℤ money) g

  abbrev Checked : ℤ → Bool → Bool → Group → Verified × Group → Type 0
  Checked money extra stored g (fails, g') = g' ≡ g
  Checked money extra stored g (denied, g') = g' ≡ g
  Checked money extra stored g (verified name, g') = Charged money extra stored g g'

  verify_balance-Checked :
      (tg : ℤ) (name : String) (money : ℤ) (extra stored : Bool) (u : Emby) (iv : Option ℤ)
      (g : Group)
      → sql_get_emby matches tg g.users ≡ some u
      → u.iv ≡ iv
      → Checked money extra stored g (verify_balance tg name money extra stored iv g)
  unfolding verify_balance
  verify_balance-Checked tg name money extra stored u none g row k = refl
  verify_balance-Checked tg name money extra stored u (some iv) g row k =
      elim (Bool-cases (may_send iv money extra)) [
        | inl h ↦ rw h (record {
          tg = tg;
          user = u;
          iv = iv;
          row = row;
          coins = k;
          covered = ground arith;
          five = ground arith;
          checked = ground arith;
          result = refl;
        })
        | inr h ↦ rw h refl
      ]

  verify_user-Checked :
      (tg : ℤ) (name : String) (money : ℤ) (extra stored : Bool) (u : Option Emby) (g : Group)
      → sql_get_emby matches tg g.users ≡ u
      → Checked money extra stored g (verify_user tg name money extra stored u g)
  unfolding verify_user
  verify_user-Checked tg name money extra stored none g row = refl
  verify_user-Checked tg name money extra stored (some u) g row =
      verify_balance-Checked tg name money extra stored u u.iv g row refl

  weaken :
      (money : ℤ) (extra extra' stored : Bool) (g : Group) (out : Verified × Group)
      → (extra ≡ true → extra' ≡ true)
      → Checked money extra stored g out
      → Checked money extra' stored g out
  weaken money extra extra' stored g (fails, g') k h = h
  weaken money extra extra' stored g (denied, g') k h = h
  weaken money extra extra' stored g (verified n, g') k h = record {
    tg = h.tg;
    user = h.user;
    iv = h.iv;
    row = h.row;
    coins = h.coins;
    covered = h.covered;
    five = h.five;
    checked = k h.checked;
    result = h.result;
  }

  verify-Checked :
      (sender : Sender) (title : String) (reply : Option Target) (money members : ℤ)
      (extra stored : Bool) (g : Group)
      → IsUser sender
      → ((tg : ℤ) → extra_check reply tg money members ≡ true → extra ≡ true)
      → Checked money extra stored g
          (verify_red_envelope_sender matches sender title reply money members stored g)
  unfolding verify_red_envelope_sender
  verify-Checked (from_user tg name) title reply money members extra stored g u k =
      weaken money (extra_check reply tg money members) extra stored g
        (verify_user tg name money (extra_check reply tg money members) stored
          (sql_get_emby matches tg g.users) g)
        (k tg)
        (verify_user-Checked tg name money (extra_check reply tg money members) stored
          (sql_get_emby matches tg g.users) g refl)
  verify-Checked (sender_chat id own) title reply money members extra stored g u k = absurd u

  -- A command that puts an envelope out, and what its checks establish.
  pub record Placing (c : Command) (g g' : Group) : Type 0 where
    pub new : NewEnvelope
    pub each : leb_ℤ new.members new.money ≡ true
    pub single :
        (new_envelope new c.red_id c.red_bag).envelope_type ≡ private_ → pos_part new.members ≤ 1
    pub extra : Bool
    pub before : Group
    pub charged : Charged new.money extra c.stored g before
    pub result : g' ≡ create_reds new c.red_id c.red_bag before

  module _ (c : Command) (user : IsUser c.sender) (g : Group) where
    abbrev pub Case : Sent × Group → Type 0
    Case out = (out.1 ≡ g) ⊎ Placing c g out.1

    send_if-Case :
        (out : Verified × Group) (make : String → NewEnvelope) (money : ℤ) (extra : Bool)
        → Checked money extra c.stored g out
        → ((name : String) → (make name).money ≡ money)
        → ((name : String)
            → leb_ℤ (pos 5) money ≡ true
            → extra ≡ true
            → leb_ℤ (make name).members (make name).money ≡ true)
        → ((name : String)
            → (new_envelope (make name) c.red_id c.red_bag).envelope_type ≡ private_
            → pos_part (make name).members ≤ 1)
        → Case (send_if out make c)
    unfolding send_if
    send_if-Case (fails, g') make money extra k same each single = inl k
    send_if-Case (denied, g') make money extra k same each single = inl k
    send_if-Case (verified name, g') make money extra k same each single = inr (record {
      new = make name;
      each = each name k.five k.checked;
      single = single name;
      extra = extra;
      before = g';
      charged = rw (same name) k;
      result = refl;
    })

    send_to-Case : (t : Target) (money : Option ℤ) → Case (send_to matches c t money g)
    unfolding send_to
    send_to-Case t none = inl refl
    send_to-Case t (some money) =
        send_if-Case
          (verify_red_envelope_sender matches c.sender c.title (some t) money (pos 1) c.stored g)
          (private_envelope c money t.tg) money true
          (verify-Checked c.sender c.title (some t) money (pos 1) true c.stored g user
            (λ tg k. refl))
          (λ name. refl) (λ name k e. ground arith) (λ name p. omega arith)

    send_common-Case : (money members : Option ℤ) → Case (send_common matches c money members g)
    unfolding send_common extra_check
    send_common-Case none members = inl refl
    send_common-Case (some money) none = inl refl
    send_common-Case (some money) (some members) =
        send_if-Case
          (verify_red_envelope_sender matches c.sender c.title none money members c.stored g)
          (common_envelope c money members) money (leb_ℤ members money)
          (verify-Checked c.sender c.title none money members (leb_ℤ members money) c.stored g user
            (λ tg k. k))
          (λ name. refl) (λ name k e. e) (λ name p. absurd (is_common (item 3 c.words) p))

    send_private-Case : (t : Target) → Case (send_private matches c t g)
    unfolding send_private
    send_private-Case t = elim (Bool-cases (t.is_bot || t.is_chat)) [
      | inl k ↦ rw k (inl refl)
      | inr k ↦ rw k (send_to-Case t (int_item 1 c.words))
    ]

    send_as-Case : (o : Settings) (reply : Option Target) → Case (send_as matches o c reply g)
    unfolding send_as
    send_as-Case o none = send_common-Case (int_item 1 c.words) (int_item 2 c.words)
    send_as-Case o (some t) = elim (Bool-cases o.allow_private) [
      | inl k ↦ rw k (send_private-Case t)
      | inr k ↦ rw k (inl refl)
    ]

    -- A command of a user changes nothing, or it charges the user and puts an envelope out.
    pub send_red_envelope-Case : (o : Settings) → Case (send_red_envelope matches o c g)
    unfolding send_red_envelope
    send_red_envelope-Case o = elim (Bool-cases (not o.status)) [
      | inl k ↦ rw k (inl refl)
      | inr k ↦ rw k (send_as-Case o c.reply_to)
    ]
