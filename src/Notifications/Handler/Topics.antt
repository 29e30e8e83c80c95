-- ===== src/Notifications/Handler/Topics.antt =====
-- Every topic has its own running interval (notifications/event_handler.js).
use netgraphz2_gpl.Common.StrMap
use netgraphz2_gpl.Notifications.Handler.Owners.{
  Owners, Owners-eq, delete-Owners, same_task, set-Owners,
}
use netgraphz2_gpl.Notifications.Limiter.Defs.{
  start_throttle_timer, start_timer, stop_throttle_timer, stop_timer,
}
use netgraphz2_gpl.Notifications.State.{
  AggEvents, Config, Interval, State, Task, aggregate, clear_interval, drop_counter, throttle,
}
use netgraphz2_gpl.Common.{
  List, Option, String, ap, arith, eq_iff, if◌then◌else◌, none, refl, some, sym, ℕ, ◌≡◌,
}

unfoldable pub timer_of : Option AggEvents → Option ℕ
timer_of none = none
timer_of (some obj) = some obj.timer

-- The interval that a variable or a topic names.
unfoldable pub own_of : Option ℕ → Option ℕ → List (String × AggEvents) → Task → Option ℕ
own_of r t topics drop_counter = r
own_of r t topics throttle = t
own_of r t topics (aggregate topic) = timer_of (StrMap.lookup topic topics)

abbrev pub Owned :
    Option ℕ → Option ℕ → List (String × AggEvents) → List (ℕ × Interval) → ℕ → Type 0
Owned r t topics m next = Owners (own_of r t topics) m next

-- The running intervals are those of the two variables and of the topics, each its own.
pub record TopicInv (s : State) : Type 0 where
  pub owners : Owned s.ratelimit_timer s.throttle_timer s.topics s.timers s.next_timer
  pub unique : StrMap.Unique s.topics

own_counter :
    (r r' t : Option ℕ) (topics : List (String × AggEvents)) (k : Task)
    → own_of r' t topics k ≡ (if same_task drop_counter k then r' else own_of r t topics k)
unfolding own_of same_task
own_counter r r' t topics drop_counter = refl
own_counter r r' t topics throttle = refl
own_counter r r' t topics (aggregate topic) = refl

own_throttle :
    (r t t' : Option ℕ) (topics : List (String × AggEvents)) (k : Task)
    → own_of r t' topics k ≡ (if same_task throttle k then t' else own_of r t topics k)
unfolding own_of same_task
own_throttle r t t' topics drop_counter = refl
own_throttle r t t' topics throttle = refl
own_throttle r t t' topics (aggregate topic) = refl

pub own_insert :
    (r t : Option ℕ) (topics : List (String × AggEvents)) (topic : String) (obj : AggEvents)
    (k : Task)
    → own_of r t (StrMap.insert topic obj topics) k
      ≡ (if same_task (aggregate topic) k then some obj.timer else own_of r t topics k)
unfolding own_of same_task timer_of
own_insert r t topics topic obj drop_counter = refl
own_insert r t topics topic obj throttle = refl
own_insert r t topics topic obj (aggregate y) =
    ground (arith, StrMap.lookup-insert topic y obj topics)

pub own_delete :
    (r t : Option ℕ) (topics : List (String × AggEvents)) (topic : String) (k : Task)
    → StrMap.Unique topics
    → own_of r t (StrMap.delete topic topics) k
      ≡ (if same_task (aggregate topic) k then none else own_of r t topics k)
unfolding own_of same_task timer_of
own_delete r t topics topic drop_counter u = refl
own_delete r t topics topic throttle u = refl
own_delete r t topics topic (aggregate y) u = ground (arith, StrMap.lookup-delete topic y topics u)

-- A topic keeps its interval when its events change.
pub own_kept :
    (r t : Option ℕ) (topics : List (String × AggEvents)) (topic : String) (obj obj' : AggEvents)
    (k : Task)
    → StrMap.lookup topic topics ≡ some obj
    → obj'.timer ≡ obj.timer
    → own_of r t (StrMap.insert topic obj' topics) k ≡ own_of r t topics k
unfolding own_of timer_of
own_kept r t topics topic obj obj' drop_counter e same = refl
own_kept r t topics topic obj obj' throttle e same = refl
own_kept r t topics topic obj obj' (aggregate y) e same =
    ground (arith, StrMap.lookup-insert topic y obj' topics, eq_iff topic y)

pub stop_timer-TopicInv : (s : State) → TopicInv s → TopicInv (stop_timer s)
unfolding stop_timer
stop_timer-TopicInv s v = go s.ratelimit_timer refl
  where
    go :
        (o : Option ℕ)
        → s.ratelimit_timer ≡ o
        → TopicInv (record (clear_interval o s) { ratelimit_timer = none })
    go none e = record {
      owners = Owners-eq (λ k. ap (λ r. own_of r s.throttle_timer s.topics k) (sym e)) v.owners;
      unique = v.unique;
    }
    go (some id) e = record {
      owners =
          delete-Owners v.owners drop_counter id (unfold own_of in e)
            (own_counter s.ratelimit_timer none s.throttle_timer s.topics);
      unique = v.unique;
    }

pub stop_throttle_timer-TopicInv : (s : State) → TopicInv s → TopicInv (stop_throttle_timer s)
unfolding stop_throttle_timer
stop_throttle_timer-TopicInv s v = go s.throttle_timer refl
  where
    go :
        (o : Option ℕ)
        → s.throttle_timer ≡ o
        → TopicInv (record (clear_interval o s) { throttle_timer = none })
    go none e = record {
      owners = Owners-eq (λ k. ap (λ t. own_of s.ratelimit_timer t s.topics k) (sym e)) v.owners;
      unique = v.unique;
    }
    go (some id) e = record {
      owners =
          delete-Owners v.owners throttle id (unfold own_of in e)
            (own_throttle s.ratelimit_timer s.throttle_timer none s.topics);
      unique = v.unique;
    }

pub start_timer-TopicInv :
    (c : Config) (s : State) → s.ratelimit_timer ≡ none → TopicInv s → TopicInv (start_timer c s)
unfolding start_timer
start_timer-TopicInv c s e v = record {
  owners =
      set-Owners v.owners drop_counter c.rate_time (unfold own_of in e)
        (own_counter s.ratelimit_timer (some s.next_timer) s.throttle_timer s.topics);
  unique = v.unique;
}

pub start_throttle_timer-TopicInv :
    (c : Config) (s : State)
    → s.throttle_timer ≡ none
    → TopicInv s
    → TopicInv (start_throttle_timer c s)
unfolding start_throttle_timer
start_throttle_timer-TopicInv c s e v = record {
  owners =
      set-Owners v.owners throttle c.rate_time (unfold own_of in e)
        (own_throttle s.ratelimit_timer s.throttle_timer (some s.next_timer) s.topics);
  unique = v.unique;
}
