-- ===== src/Gateway/Wiring.antt =====
-- cmd/ocgate/main.go with the constructors that it calls, `NewRedisStore` and `NewResolver`: what each part
-- of the gateway is given of the configuration. Durations are in nanoseconds.
pub mod Timely
use opgate.Base.{ℕ}
use opgate.Base.Bytes.{Bytes}
use opgate.Base.Int.{ℤ}
use opgate.Config.{Settings, size, pool_config}
use opgate.Collector.Pool

-- The options of the Redis client.
pub record RedisOptions : Type 0 where
  pub addr : Bytes
  pub db : ℤ
  pub dial_timeout : ℤ
  pub read_timeout : ℤ
  pub write_timeout : ℤ

-- `RedisStore`, less the metrics.
pub record RedisStore : Type 0 where
  pub options : RedisOptions
  pub timeout : ℤ

-- `NewRedisStore`
unfoldable pub new_redis_store : Bytes → ℤ → ℤ → RedisStore
new_redis_store addr db timeout = record {
  options = record {
    addr = addr;
    db = db;
    dial_timeout = timeout;
    read_timeout = timeout;
    write_timeout = timeout;
  };
  timeout = timeout;
}

-- `Resolver`, less its store, the metrics and the logger.
pub record Resolver : Type 0 where
  pub timeout : ℤ

-- `NewResolver`
unfoldable pub new_resolver : ℤ → Resolver
new_resolver timeout = record { timeout = timeout }

-- The parts that `main` makes: `ttl` and `op_timeout` are the other fields of the configuration of the
-- pool, `mapping_ttl`, `mapping_timeout` and `max_body` what the handler reads of the configuration.
pub record Parts : Type 0 where
  pub store : RedisStore
  pub ping_timeout : ℤ
  pub pool : Pool.Config
  pub ttl : ℤ
  pub op_timeout : ℤ
  pub resolver : Resolver
  pub mapping_ttl : ℤ
  pub mapping_timeout : ℤ
  pub max_body : ℕ

unfoldable pub parts : Settings → Parts
unfolding new_redis_store new_resolver pool_config size
parts c = record {
  store = new_redis_store c.redis.addr c.redis.db c.redis.timeout;
  ping_timeout = c.redis.timeout;
  pool = pool_config c;
  ttl = c.response_cache.ttl;
  op_timeout = c.redis.timeout;
  resolver = new_resolver c.redis.timeout;
  mapping_ttl = c.session.ttl;
  mapping_timeout = c.redis.timeout;
  max_body = size c.limits.max_request_body;
}
