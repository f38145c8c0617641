-- ===== src/Mem/Aggregation/Lifetime.antt =====
-- A LAG that is made or deleted: AddLAG and DelLAG keep ports and LAGs in agreement.
use nosaic_switch.Base.{
  ◌≡◌, refl, ◌∙◌, ◌≢◌, Bool, true, false, Option, none, some, List, [], arith, if◌then◌else◌, ◌==◌,
  Text, contains, text_eq, nat_eq,
}
use nosaic_switch.Base.Int.{int_eq}
use nosaic_switch.Base.Map.{
  Map, insert, delete, has, lookup-insert, lookup-delete, has-insert, has-delete,
}
use nosaic_switch.Base.Exec.{ok}
use nosaic_switch.SwitchApi.Address.{prefix_eq}
use nosaic_switch.SwitchApi.Types.{gateway_eq}
use nosaic_switch.SwitchApi.Names.{valid_lag_name}
use nosaic_switch.Mem.State.{PortState, LagState, new_port}
use nosaic_switch.Mem.Lags.{new_lag, new_lag_port}
use nosaic_switch.Base.Every.{Every-insert, Every-delete}
use nosaic_switch.Mem.Writes.{members_of, released}
use nosaic_switch.Mem.Views.{
  lag_of, kind_of, lists, lag_of-released, kind_of-released, contains-members_of, in_place,
}
use nosaic_switch.Mem.Aggregation.{Aggregated}
use nosaic_switch.Mem.Aggregation.Members.{released-Ready, released-named, member_front}

lag_of-insert :
    (k n : Text) (p : PortState) (m : Map Text PortState)
    → lag_of n (insert k p m) ≡ (if k == n then some p.lag else lag_of n m)
unfolding lag_of
lag_of-insert k n p m = ground (arith, lookup-insert k n p m)

kind_of-insert :
    (k n : Text) (p : PortState) (m : Map Text PortState)
    → kind_of n (insert k p m) ≡ (if k == n then some p.is_lag else kind_of n m)
unfolding kind_of
kind_of-insert k n p m = ground (arith, lookup-insert k n p m)

lists-insert :
    (k g n : Text) (l : LagState) (m : Map Text LagState)
    → lists g (insert k l m) n ≡ (if k == g then contains l.members n else lists g m n)
unfolding lists
lists-insert k g n l m = ground (arith, lookup-insert k g l m)

lag_of-delete :
    (k n : Text) (m : Map Text PortState)
    → lag_of n (delete k m) ≡ (if k == n then none else lag_of n m)
unfolding lag_of
lag_of-delete k n m = ground (arith, lookup-delete k n m)

kind_of-delete :
    (k n : Text) (m : Map Text PortState)
    → kind_of n (delete k m) ≡ (if k == n then none else kind_of n m)
unfolding kind_of
kind_of-delete k n m = ground (arith, lookup-delete k n m)

lists-delete :
    (k g n : Text) (m : Map Text LagState)
    → lists g (delete k m) n ≡ (if k == g then false else lists g m n)
unfolding lists
lists-delete k g n m = ground (arith, lookup-delete k g m)

lists-has : (g n : Text) (m : Map Text LagState) → lists g m n ≡ true → has g m ≡ true
unfolding lists
lists-has g n m h = ground arith

lag_of-kind : (n g : Text) (m : Map Text PortState) → lag_of n m ≡ some g → kind_of n m ≢ none
unfolding lag_of kind_of
lag_of-kind n g m h = ground arith

unnamed : valid_lag_name [] ≢ ok tt
unfolding valid_lag_name
unnamed = λ e. cc

kind_none : (k : Option Bool) → k ≢ some true → k ≢ some false → k ≡ none
kind_none k h j = ground arith

module _ {ports : List Text} {ps : Map Text PortState} {lags : Map Text LagState}
    (a : Aggregated ports ps lags) (name : Text) where
  module _ (lacp : Bool) (good : valid_lag_name name ≡ ok tt) (fresh : has name lags ≡ false) where
    no_port : kind_of name ps ≡ none
    no_port =
        kind_none _ (λ e. cc (a.is_lag name e, fresh))
          (λ e. absurd (a.front_names name (a.is_front name e) good))

    no_lag : (g : Text) → lag_of name ps ≢ some g
    no_lag g e = lag_of-kind name g ps e no_port

    no_list : (n : Text) → lists name lags n ≢ true
    no_list n e = cc (lists-has name n lags e, fresh)

    pub create-Aggregated :
        Aggregated ports (insert name (new_lag_port name) ps) (insert name (new_lag lacp) lags)
    unfolding new_port
    create-Aggregated =
        let lag_now = λ (n : Text). lag_of-insert name n (new_lag_port name) ps in
        let kind_now = λ (n : Text). kind_of-insert name n (new_lag_port name) ps in
        let list_now = λ (g n : Text). lists-insert name g n (new_lag lacp) lags in
        let has_now = λ (n : Text). has-insert name n (new_lag lacp) lags in
        record {
          listed_by =
              λ n g h e. ground (arith, lag_now n, list_now g n, a.listed_by n g, no_list n);
          says = λ n g h e. ground (arith, lag_now n, list_now g n, a.says n g, no_lag g);
          is_lag = λ n e. ground (arith, kind_now n, has_now n, a.is_lag n);
          lag_port = λ n e. ground (arith, kind_now n, has_now n, a.lag_port n);
          is_front = λ n e. ground (arith, kind_now n, a.is_front n);
          front_port = λ n e. ground (arith, kind_now n, a.front_port n, no_port);
          bare = Every-insert name (new_lag_port name) ps a.bare (λ h. absurd (h refl));
          named = Every-insert name (new_lag_port name) ps a.named refl;
          no_empty_name = ground (arith, has_now [], a.no_empty_name, unnamed, good);
          front_names = a.front_names;
        }

  module _ (there : has name lags ≡ true) where
    abbrev kept : Map Text PortState
    kept = released [] (members_of name lags) ps

    lag_now :
        (n : Text)
        → lag_of n (delete name kept)
          ≡ (if name == n then none else in_place (lists name lags n) [] (lag_of n ps))
    lag_now n = ground (
      arith,
      lag_of-delete name n kept,
      lag_of-released [] (members_of name lags) n ps,
      contains-members_of name lags n,
    )

    kind_now :
        (n : Text) → kind_of n (delete name kept) ≡ (if name == n then none else kind_of n ps)
    kind_now n =
        kind_of-delete name n kept ∙ rw (kind_of-released [] (members_of name lags) n ps) refl

    not_empty : name ≢ []
    not_empty e = absurd (ground (arith, a.no_empty_name))

    not_front : contains ports name ≢ true
    not_front e = ground (arith, a.front_port name e, a.lag_port name there)

    not_member : (g : Text) → g ≢ [] → lag_of name ps ≢ some g
    not_member g h e = not_front (member_front a name g h e)

    pub delete-Aggregated : Aggregated ports (delete name kept) (delete name lags)
    delete-Aggregated =
        let list_now = λ (g n : Text). lists-delete name g n lags in
        let has_now = λ (n : Text). has-delete name n lags in
        record {
          listed_by = λ n g h e.
              ground
                (arith, lag_now n, list_now g n, a.listed_by n g h, a.listed_by n name not_empty);
          says = λ n g h e. ground (
            arith,
            lag_now n,
            list_now g n,
            a.says n g h,
            a.says n name not_empty,
            not_member g h,
          );
          is_lag = λ n e. ground (arith, kind_now n, has_now n, a.is_lag n);
          lag_port = λ n e. ground (arith, kind_now n, has_now n, a.lag_port n);
          is_front = λ n e. ground (arith, kind_now n, a.is_front n);
          front_port = λ n e. ground (arith, kind_now n, a.front_port n, not_front);
          bare = Every-delete name kept λ n p e.
              (released-Ready [] [] (members_of name lags) ps
                (λ n p e. (a.bare n p e, λ c. absurd (ground arith))) n p e).0;
          named = Every-delete name kept (released-named [] (members_of name lags) ps a.named);
          no_empty_name = ground (arith, has_now [], a.no_empty_name);
          front_names = a.front_names;
        }
