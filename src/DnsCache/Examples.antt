-- ===== src/DnsCache/Examples.antt =====
-- The cache at concrete inputs, and each theorem of DnsCache/Laws.antt at one of them. An address
-- and an error are numbers here.
use pxgo.Shared.{ℕ, String, ◌≡◌, refl, Bool, true, false, [], seconds}
use pxgo.DnsCache.{
  Answer, addresses, failed, Call, Cache, resolves, new_cache, begin_lookup, end_lookup,
}
use pxgo.DnsCache.Runs.{Run, here, next, begins, ends, IsBounded, cache-IsBounded}
use pxgo.DnsCache.Laws.{IsDetached, again, stale_lookup-IsDetached}
use pxgo.DnsCache.Sharing
use pxgo.DnsCache.Sharing.{AsksNobody, lookups_coalesce}

abbrev fresh : Cache ℕ ℕ
fresh = new_cache true

abbrev first_call : Call
first_call = record { id = 0; generation = 0 }

abbrev no_order : String → String → Bool
no_order a b = false

first_call_resolves : (begin_lookup 100 "proxy.test" fresh).0 ≡ resolves first_call
unfolding begin_lookup pxgo.DnsCache.by_entry pxgo.DnsCache.by_call new_cache
    pxgo.Shared.Dict.lookup
first_call_resolves = refl

-- Another host is asked for meanwhile.
abbrev meanwhile : Cache ℕ ℕ
meanwhile = (begin_lookup 150 "other.test" (begin_lookup 100 "proxy.test" fresh).1).1

lookups_coalesce_example : AsksNobody (begin_lookup 200 "proxy.test" meanwhile).0
lookups_coalesce_example =
    lookups_coalesce 100 200 "proxy.test" fresh meanwhile first_call first_call_resolves
      (Sharing.next Sharing.here (Sharing.begins 150 "other.test"))

stale_lookup-IsDetached_example :
    IsDetached "proxy.test"
      (end_lookup no_order 300 false "proxy.test" first_call
        (addresses 7)
        (seconds 30)
        (again 200 "proxy.test" (begin_lookup 100 "proxy.test" fresh).1))
      (again 200 "proxy.test" (begin_lookup 100 "proxy.test" fresh).1)
stale_lookup-IsDetached_example =
    stale_lookup-IsDetached no_order 100 200 300 false "proxy.test" fresh first_call (addresses 7)
      (seconds 30) first_call_resolves

abbrev no_such_host : Answer ℕ ℕ
no_such_host = failed 1

-- The first lookup stores its answer.
abbrev answered : Cache ℕ ℕ
answered =
    end_lookup no_order 300 false "proxy.test" first_call (addresses 7) (seconds 30)
      (begin_lookup 100 "proxy.test" fresh).1

run_answered : Run fresh answered
run_answered =
    next (next here (begins 100 "proxy.test"))
      (ends no_order 300 false "proxy.test" first_call (addresses 7) (seconds 30) refl)

cache-IsBounded_example : IsBounded answered
cache-IsBounded_example = cache-IsBounded true answered run_answered
