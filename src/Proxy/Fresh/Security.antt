-- ===== src/Proxy/Fresh/Security.antt =====
-- fault_proxy/security_records.py.
use dns_server_lan_fixtures.Prelude.{◌++◌, Text, codes}

-- OPENPGPKEY
unfoldable pub openpgpkey_text : Text
openpgpkey_text =
    codes "mQENBGqzHfwBCAC7khONhbLdUL4z1AvU9Kraiqbt4bsVae2WIdNXwA/5qROil6RpTHi+WqeHPe9xfqDoUrjatmrJ"
    ++ (codes
          "4g23jw8Mw4Dujk2lmLhSEXSbqo195QqJoFwo2poDdUkRf3cOeCwk88bwtQBZqzXTvbZ4bZlYid0BYyliiCo7vjDI"
        ++ (codes
              "kQYorYPwgnKgoMs9ZLIoG78j68mRooUyzgctnxVP1e8/khwumXun4glUy2gyCrGgSEOO4vDqum9EWA3GEV97doLY"
            ++ (codes
                  "Jj2dmPQMv91XKfdGxQGXIiG5Fqmc8S7n/HI5i5bwi8sLGy30eOp5td0lNE85CjKibIAYFudNVq6udRWIJVnrfBmw"
                ++ (codes
                      "DMVxABEBAAG0KUROUyBRQSBTeW50aGV0aWMgPGRucy1xYUBleGFtcGxlLmludmFsaWQ+iQFtBBMBCABXFiEE+hbq"
                    ++ (codes
                          "HZwddeZ/FoW2iDIeWN8Env8FAmqzHfwbFIAAAAAABAAObWFudTIsMi41KzEuMTIsMCwzAhsPBQsJCAcCAiICBhUK"
                        ++ (codes
                              "CQgLAgQWAgMBAh4HAheAAAoJEIgyHljfBJ7/oicIAJVS+ndX+dVvvVcOVOsl1w5SCbd87O9zBKwCy2n03BgHT2or"
                            ++ (codes
                                  "zJovMiC5sL/JNWVv3rNc4Lqvj6v+yRC5j2+zxDDa+Tni2S0hwPV8BdSWv3tXzM+xYdy8eGT0Hcmzf9vAHCU4BP3U"
                                ++ (codes
                                      "5vQNONqfr2U6eR8w0UETMwnKhyhOGm2cPY5C9sn0lGwjUhkq+5qhRvNxHl7/1eDS3MZ3J1tsopHGAfWzZuVvezpn"
                                    ++ (codes
                                          "VqNnXmVHLtzzDiTk2P3QS5lF0JXKmyIZpU7MDlNEF1n+QDMmAGbB++fV0hiTdnOb07fjyknwUMxp6b7WKdo8lSkw"
                                        ++ (codes "AfhJdGNa7/8Pn6qV99H1fDNpYYljfb4="))))))))))

-- SMIMEA
unfoldable pub smimea_text : Text
smimea_text = codes "3 1 1 b24fd998ca466289386fd15e523a162f5ec09c1f9fa7fddffd7e7fc7c148fbd6"
